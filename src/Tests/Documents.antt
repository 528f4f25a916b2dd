-- ===== src/Tests/Documents.antt =====
-- The theorems on the database, each applied to a document of a storage in memory.
use sofa_db.Prelude.{◌≡◌, refl, inl, true, false, List, [], ◌∷◌, none, some, arith}
use sofa_db.Text.{Bytes, decimal_ℤ, bytes_eq, contains}
use sofa_db.Text.Order.{bytes_eq_refl}
use sofa_db.Failure.{ok, ◌>>=◌}
use sofa_db.Revision.{empty_revision, make_revision, parse_revision}
use sofa_db.Revlog.View.{represent, with_entry, last_entry}
use sofa_db.Conflict.Spec.{entry_of}
use sofa_db.Storage.Memory.{memory, memory_map, lookup_in}
use sofa_db.Database.{PutResult, make_path, update_conflict}
use sofa_db.Database.Put.{put}
use sofa_db.Database.Put.Effects.{
  HoldsLog, put-first, put-next, put-conflict, assigned, accepted, stored,
}
use sofa_db.Database.Put.Logs.{is_top, first_log}
use sofa_db.Database.Get.{get}
use sofa_db.Json.Plain.{IsPlain}
use sofa_db.Revision.Parse.{parse_revision-make_revision}
use sofa_db.Database.Put.Frame.{written}
use sofa_db.Database.Get.Isolation.{get-put_other}
use sofa_db.Database.Get.AfterPut.{get-put_first, get-put_next, content_and_rev, latest}
use sofa_db.Database.Get.Chain.{HasRun, put_all-HasRun}
use sofa_db.Tests.Codec.{libraries, documented}
use sofa_db.Tests.Data.{db, other_db, doc, content, rev_a, rev_b, log_a, held}

pub held-HoldsLog :
    HoldsLog libraries memory memory_map (make_path db doc) log_a (entry_of rev_a) held
held-HoldsLog = record {
  text = unfold lookup_in in rw (bytes_eq_refl (make_path db doc)) refl;
  fits = unfold make_revision in (omega arith, tt);
  at_top = unfold last_entry in refl;
}

pub a_is_top : is_top rev_a (entry_of rev_a) ≡ true
unfolding is_top bytes_eq make_revision
a_is_top = refl

pub b_is_not_top : is_top rev_b (entry_of rev_a) ≡ false
unfolding is_top bytes_eq make_revision
b_is_not_top = refl

put-first_example :
    put libraries memory db 0 doc empty_revision content false []
    ≡ ok (
      accepted libraries memory memory_map empty_revision content
          (first_log empty_revision (assigned libraries memory memory_map empty_revision content)),
      stored libraries memory memory_map
          (make_path db doc)
          empty_revision
          content
          (first_log empty_revision (assigned libraries memory memory_map empty_revision content))
          [],
    )
put-first_example =
    put-first libraries documented memory memory_map db 0 doc empty_revision content [] refl false
      (omega arith) (unfold lookup_in in refl)

pub content-IsPlain : IsPlain content
content-IsPlain = ((tt, tt), ((λ e. cc), refl, tt))

pub a_readable : parse_revision rev_a.stringed ≡ ok rev_a
a_readable = parse_revision-make_revision libraries documented 1 (b'a' ∷ []) (omega arith) (λ e. cc)

get-put_first_example :
    (put libraries memory db 0 doc empty_revision content false [] >>= λ done.
    get libraries memory db doc none content_and_rev done.1)
    ≡ ok (
        latest libraries doc
          (assigned libraries memory memory_map empty_revision content)
          empty_revision
          content)
get-put_first_example =
    get-put_first libraries documented memory memory_map db 0 doc empty_revision content [] refl
      content-IsPlain (unfold parse_revision in refl) false (omega arith) (unfold lookup_in in refl)

put-next_example :
    put libraries memory db 0 doc rev_a content false held
    ≡ ok (
      accepted libraries memory memory_map rev_a content
          (with_entry (entry_of (assigned libraries memory memory_map rev_a content)) log_a),
      stored libraries memory memory_map
          (make_path db doc)
          rev_a
          content
          (with_entry (entry_of (assigned libraries memory memory_map rev_a content)) log_a)
          held,
    )
put-next_example =
    put-next libraries documented memory memory_map db 0 doc rev_a content held refl false log_a
      (entry_of rev_a) held-HoldsLog (unfold make_revision in omega arith) a_is_top

get-put_next_example :
    (put libraries memory db 0 doc rev_a content false held >>= λ done.
    get libraries memory db doc none content_and_rev done.1)
    ≡ ok (latest libraries doc (assigned libraries memory memory_map rev_a content) rev_a content)
get-put_next_example =
    get-put_next libraries documented memory memory_map db 0 doc rev_a content held refl
      content-IsPlain a_readable false log_a (entry_of rev_a) held-HoldsLog
      (unfold make_revision in omega arith) a_is_top

put-conflict_example :
    put libraries memory db 0 doc rev_b content false held
    ≡ ok (
      record { code = update_conflict; assigned_rev = empty_revision; rev_log = represent log_a },
      held,
    )
put-conflict_example =
    put-conflict libraries documented memory memory_map db 0 doc rev_b content held refl log_a
      (entry_of rev_a) held-HoldsLog b_is_not_top

-- The put of a document of which the storage holds the log leaves another document alone.
abbrev done_next : PutResult × List (Bytes × Bytes)
done_next =
    written libraries memory memory_map (make_path db doc) rev_a content
      (represent (with_entry (entry_of (assigned libraries memory memory_map rev_a content)) log_a))
      held

get-put_other_example :
    get libraries memory other_db doc (some rev_b) content_and_rev done_next.1
    ≡ get libraries memory other_db doc (some rev_b) content_and_rev held
unfolding decimal_ℤ
get-put_other_example =
    get-put_other libraries documented memory memory_map db other_db 0 doc doc rev_a rev_b content
      false content_and_rev held done_next put-next_example (unfold make_revision in omega arith)
      (unfold contains in refl) (unfold contains in refl) (unfold contains make_revision in refl)
      (inl (inl (λ e. cc))) refl refl

put_all-HasRun_example :
    HasRun libraries documented memory memory_map db 0 doc refl log_a rev_a
      (content ∷ (content ∷ []))
      held
put_all-HasRun_example =
    put_all-HasRun libraries documented memory memory_map db 0 doc refl log_a rev_a
      (content ∷ (content ∷ [])) held held-HoldsLog (unfold make_revision in omega arith)
