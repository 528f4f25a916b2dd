-- ===== src/Tests/Threads.antt =====
-- The theorems on puts of several threads, each applied to threads over a storage in memory.
use sofa_db.Prelude.{ℕ, ◌≤◌, ◌≡◌, refl, ◌⊎◌, inl, Bool, false, List, [], ◌∷◌, some, arith}
use sofa_db.Prelude.Int.{pos}
use sofa_db.Text.{Bytes, contains}
use sofa_db.Failure.{ok}
use sofa_db.Json.Value.{JsonValue, int, submap, field, no_fields}
use sofa_db.Json.Text.{json_to_string}
use sofa_db.Revision.{Revision, empty_revision, make_revision, parse_revision}
use sofa_db.Revlog.View.{represent, with_entry}
use sofa_db.Conflict.Spec.{entry_of}
use sofa_db.Storage.Memory.{memory, memory_map, lookup_in}
use sofa_db.Database.{PutResult, make_path}
use sofa_db.Database.Put.{put}
use sofa_db.Database.Put.Effects.{assigned, accepted}
use sofa_db.Database.Get.AfterPut.{content_and_rev}
use sofa_db.Concurrent.{Request, waiting, returned, System, turn, take_turns, begun, later}
use sofa_db.Concurrent.Alone.{outcome}
use sofa_db.Concurrent.Progress.{turns_of}
use sofa_db.Concurrent.Sound.{IsFair, IsReadable}
use sofa_db.Concurrent.Readable.{take_turns-returns, reading, nothing}
use sofa_db.Concurrent.Across.{get_across, get_across-take_turns}
use sofa_db.Concurrent.LostUpdate.{take_turns-lost_update}
use sofa_db.Concurrent.Disjoint.{Agree}
use sofa_db.Concurrent.Isolated.{take_turns-isolated}
use sofa_db.Tests.Codec.{libraries, documented}
use sofa_db.Tests.Data.{db, doc, content, rev_a, log_a, held}
use sofa_db.Tests.Documents.{held-HoldsLog, a_is_top, content-IsPlain}

-- Every thread puts the same document for the first time.
abbrev first_put : ℕ → Request
first_put i = record { id = doc; old = empty_revision; content = content }

-- Every thread puts a content of its own on the top revision.
abbrev numbered : ℕ → JsonValue
numbered i = submap (field (b'n' ∷ []) (int (pos i)) no_fields)

abbrev on_top : ℕ → Request
on_top i = record { id = doc; old = rev_a; content = numbered i }

-- Each thread puts a document of its own, whose ID is its index as a byte.
abbrev own_put : ℕ → Request
own_put i = record { id = i ∷ []; old = empty_revision; content = content }

first_put-IsFair : (i : ℕ) → IsFair (first_put i)
first_put-IsFair i = record {
  small = omega arith;
  plain = content-IsPlain;
  readable = unfold parse_revision in refl;
}

empty-IsReadable : (id : Bytes) → IsReadable libraries memory memory_map (make_path db id) []
empty-IsReadable id = inl (unfold lookup_in in refl)

-- A schedule of two threads.
abbrev mixed : List ℕ
mixed = 0 ∷ 1 ∷ 0 ∷ 1 ∷ 1 ∷ 0 ∷ []

mixed_enough : 3 ≤ turns_of 1 mixed
unfolding turns_of
mixed_enough = omega arith

-- Two threads, of which one has written its body.
abbrev half_way : System memory
half_way = turn libraries memory db first_put 0 (
    turn libraries memory db first_put 1
      (turn libraries memory db first_put 0 (record { state = []; phase = λ i. waiting })))

-- The log is read where one thread has written its body, and the body after both have ended.
abbrev later_on : System memory
later_on = take_turns libraries memory db first_put (0 ∷ 1 ∷ 1 ∷ []) half_way

get_across-take_turns_example :
    (get_across libraries memory db doc content_and_rev half_way.state later_on.state ≡ ok nothing)
    ⊎ ((num prev : Revision) × ((deleted : Bool) × ((content : JsonValue) × (get_across libraries
                memory db doc content_and_rev half_way.state later_on.state
              ≡ ok (reading doc num prev deleted content)))))
get_across-take_turns_example =
    get_across-take_turns libraries documented memory memory_map db refl (unfold contains in refl)
      first_put first_put-IsFair doc [] half_way (0 ∷ 1 ∷ 1 ∷ []) empty-IsReadable
      (later 0 (later 1 (later 0 begun)))

take_turns-returns_example :
    (res : PutResult) × ((take_turns libraries memory db first_put mixed
          (record { state = []; phase = λ j. waiting })).phase
        1
      ≡ returned res)
take_turns-returns_example =
    take_turns-returns libraries documented memory memory_map db refl (unfold contains in refl)
      first_put first_put-IsFair 1 mixed [] empty-IsReadable mixed_enough

abbrev entered : ℕ → PutResult
entered i =
    accepted libraries memory memory_map rev_a (numbered i)
      (with_entry (entry_of (assigned libraries memory memory_map rev_a (numbered i))) log_a)

abbrev after_race : System memory
after_race =
    take_turns libraries memory db on_top (0 ∷ 1 ∷ 0 ∷ 0 ∷ 1 ∷ 1 ∷ [])
      (record { state = held; phase = λ k. waiting })

take_turns-lost_update_example :
    (after_race.phase 0 ≡ returned (entered 0))
    × (after_race.phase 1 ≡ returned (entered 1))
    × (memory_map.lookup (make_path db doc) after_race.state
        ≡ some (
            json_to_string libraries
              (represent (
                with_entry
                  (entry_of (assigned libraries memory memory_map rev_a (numbered 1)))
                  log_a))
              false))
take_turns-lost_update_example =
    take_turns-lost_update libraries documented memory memory_map db refl on_top 0 1
      (λ e. omega arith) log_a (entry_of rev_a) held refl (unfold make_revision in omega arith)
      (unfold make_revision in omega arith) held-HoldsLog a_is_top a_is_top

abbrev after_mixed : System memory
after_mixed =
    take_turns libraries memory db own_put mixed (record { state = []; phase = λ j. waiting })

take_turns-isolated_example :
    (st' : memory.State) × (outcome (after_mixed.phase 1, st')
      ≡ put libraries memory db 0 (1 ∷ []) empty_revision content false [])
    × Agree libraries memory memory_map db (1 ∷ []) after_mixed.state st'
take_turns-isolated_example =
    take_turns-isolated libraries documented memory memory_map db (unfold contains in refl) own_put
      (λ j. omega arith) 1 (λ j n e. n cc) 0 mixed [] mixed_enough
