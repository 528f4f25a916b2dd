-- ===== src/Tests/Reads.antt =====
-- The theorems on what a get returns and on merges into a log, at concrete inputs.
use sofa_db.Prelude.{◌≡◌, ◌≢◌, refl, true, false, [], ◌∷◌, ◌++◌, none, arith, ◌||◌}
use sofa_db.Text.{Bytes, decimal_ℤ, bytes_eq, bytes_lt}
use sofa_db.Text.Order.{bytes_eq_iff}
use sofa_db.Failure.{ok, fail, undefined}
use sofa_db.Json.Value.{no_items}
use sofa_db.Revision.{make_revision, is_empty}
use sofa_db.Revlog.View.{represent, LogView, last_entry, text_items}
use sofa_db.Conflict.{merge, wins, member, is_left_rev_winning}
use sofa_db.Conflict.Spec.{entry_of, merge_view, adjoin_all, winner, loser}
use sofa_db.Conflict.Winning.{is_left_rev_winning_lem}
use sofa_db.Conflict.Merge.{IsCurrent, merge-represent}
use sofa_db.Conflict.Sound.{IsSound, merge_lem, merge_self, merge-no_room}
use sofa_db.Storage.Memory.{memory, memory_map}
use sofa_db.Database.Get.{Wanted, get}
use sofa_db.Database.Get.Reads.{get-moved_log}
use sofa_db.Tests.Codec.{libraries, documented}
use sofa_db.Tests.Data.{db, doc, rev_a, rev_b, rev_c, log_a, held}
use sofa_db.Tests.Documents.{held-HoldsLog}

abbrev everything : Wanted
everything = record { content = true; rev = true; rev_log = true }

get-moved_log_example : get libraries memory db doc none everything held ≡ fail undefined
get-moved_log_example =
    get-moved_log libraries documented memory memory_map db doc everything held log_a
      (entry_of rev_a) held-HoldsLog refl refl

pub a-IsCurrent : IsCurrent libraries log_a rev_a
unfolding make_revision is_empty last_entry
a-IsCurrent = record {
  last = entry_of rev_a;
  at_top = refl;
  fits = omega arith;
  top = refl;
  filled = refl;
}

a-IsSound : IsSound libraries log_a rev_a
unfolding member
a-IsSound = record { current = a-IsCurrent; distinct = tt; top_free = refl }

b_ne_a : rev_b.stringed ≢ rev_a.stringed
unfolding make_revision bytes_eq decimal_ℤ
b_ne_a e = ground (
  arith,
  (bytes_eq_iff rev_b.stringed rev_a.stringed).0,
  (bytes_eq_iff rev_b.stringed rev_a.stringed).1 e,
)

merge-represent_example :
    merge libraries 1 rev_b (text_items (rev_c.stringed ∷ [])) (represent log_a)
    ≡ ok (represent (merge_view rev_a rev_b (rev_c.stringed ∷ []) log_a))
unfolding decimal_ℤ bytes_lt
merge-represent_example =
    merge-represent libraries 1 rev_a rev_b (rev_c.stringed ∷ []) log_a a-IsCurrent
      (unfold is_empty make_revision in refl)
      (unfold winner adjoin_all member bytes_eq make_revision in refl) (omega arith)

merge_lem_example :
    (v' : LogView) × (merge libraries 1 rev_b (text_items (rev_c.stringed ∷ [])) (represent log_a)
      ≡ ok (represent v'))
    × IsSound libraries v' (winner rev_a rev_b)
    × ((t : Bytes)
        → member t v'.conflicts ≡ (
            (member t log_a.conflicts || member t (rev_c.stringed ∷ []))
            || bytes_eq (loser rev_a rev_b).stringed t))
unfolding decimal_ℤ bytes_lt
merge_lem_example =
    merge_lem libraries 1 rev_a rev_b (rev_c.stringed ∷ []) log_a a-IsSound
      (unfold is_empty make_revision in refl) (unfold make_revision in omega arith)
      (unfold make_revision in refl) b_ne_a (unfold winner member bytes_eq make_revision in refl)
      (omega arith)

merge_self_example :
    merge libraries 1 rev_a no_items (represent log_a)
    ≡ ok (
        represent (record {
          conflicts = log_a.conflicts ++ (rev_a.stringed ∷ []);
          entries = log_a.entries ++ (entry_of rev_a ∷ []);
        }))
merge_self_example = merge_self libraries 1 rev_a log_a a-IsSound (omega arith)

merge-no_room_example : merge libraries 0 rev_c (text_items []) (represent log_a) ≡ fail undefined
merge-no_room_example =
    merge-no_room libraries rev_a rev_c [] log_a a-IsCurrent (unfold is_empty make_revision in refl)
      (unfold wins make_revision bytes_lt in refl)

is_left_rev_winning_lem_example :
    (is_left_rev_winning rev_c rev_c ≡ ok false)
    × (is_left_rev_winning rev_c rev_a ≡ ok true → is_left_rev_winning rev_a rev_c ≡ ok false)
    × (is_left_rev_winning rev_c rev_a ≡ ok false
        → is_left_rev_winning rev_a rev_c ≡ ok false
        → (rev_c.num ≡ rev_a.num) × (rev_c.uniq ≡ rev_a.uniq))
    × (is_left_rev_winning rev_c rev_b ≡ ok true
        → is_left_rev_winning rev_b rev_a ≡ ok true
        → is_left_rev_winning rev_c rev_a ≡ ok true)
is_left_rev_winning_lem_example =
    is_left_rev_winning_lem rev_c rev_b rev_a (unfold is_empty make_revision in refl)
      (unfold is_empty make_revision in refl) (unfold is_empty make_revision in refl)
