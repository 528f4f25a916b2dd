-- ===== src/Concurrent.antt =====
-- Puts of several sessions at the same time: Database::put (libsofadb/database.cpp), which takes no
-- lock, as the threads of server/server_main.cpp call it. A thread goes from one call of the
-- storage to the next in one step.
pub mod Alone
pub mod Across
pub mod Isolated
pub mod Disjoint
pub mod Turns
pub mod LostUpdate
pub mod Readable
pub mod Steps
pub mod Sound
pub mod Progress
use mathlib.Core.Path.{subst}
use sofa_db.Prelude.{
  ℕ, zero, suc, Bool, true, false, not, ◌&&◌, List, [], ◌∷◌, ◌++◌, Option, none, some, ◌==◌,
  if◌then◌else◌, ◌≡◌, refl, arith,
}
use sofa_db.Text.{Bytes}
use sofa_db.Failure.{Failure, Result, ok, fail, undefined, ◌>>=◌, ◌>>◌, assert}
use sofa_db.Json.Value.{JsonValue}
use sofa_db.Json.Text.{json_to_string}
use sofa_db.Revision.{Revision, empty_revision, is_empty}
use sofa_db.Storage.{Storage}
use sofa_db.Database.{Database, PutResult, update_ok, update_conflict, check_closed, make_path}
use sofa_db.Database.Put.{mismatches, extend_log, get_revlog, store_data}
use sofa_db.Externals.{Externals}

-- The arguments of a put. A session asks for no merge.
pub record Request : Type 0 where
  pub id : Bytes
  pub old : Revision
  pub content : JsonValue

-- Where a put stands, with the local variables that are live there.
pub data Phase : Type 0 where
  -- before get_revlog
  waiting : Phase
  -- before the write of store_data, with has_prev and the log
  checked : Bool → JsonValue → Phase
  -- before the write of the log, with the assigned revision and the new log
  formatted : Revision → JsonValue → Phase
  -- after the return, or an exception
  returned : PutResult → Phase
  thrown : Failure → Phase

module _ (x : Externals) (s : Storage) (db : Database) (r : Request) where
  -- What follows the read of the log: the conflict is returned, or the put goes on.
  unfoldable pub after_compare : Bool → JsonValue → Result Bool → Phase
  after_compare has_prev log (fail failure) = thrown failure
  after_compare has_prev log (ok true) =
      returned (record { code = update_conflict; assigned_rev = empty_revision; rev_log = log })
  after_compare has_prev log (ok false) = checked has_prev log

  unfoldable pub after_read : Result (Bool × JsonValue) → Phase
  unfolding after_compare
  after_read (fail failure) = thrown failure
  after_read (ok (has_prev, log)) =
      after_compare has_prev log (if has_prev then mismatches r.old log else ok false)

  unfoldable pub read_log : s.State → Phase
  unfolding after_read
  read_log st = after_read (check_closed db >> get_revlog x s (make_path db r.id) st)

  -- What follows the making of the new log.
  unfoldable pub after_format : Revision → Result JsonValue → Phase
  after_format rev (fail failure) = thrown failure
  after_format rev (ok log') = formatted rev log'

  -- What follows the write of the body.
  unfoldable pub format_log : Bool → JsonValue → Revision → Phase
  unfolding after_format
  format_log has_prev log rev =
      after_format rev (assert (not (is_empty rev)) >> extend_log has_prev r.old rev log)

  -- A write that throws leaves the storage as it was.
  unfoldable pub after_write :
      Bool → JsonValue → s.State → Result (Revision × s.State) → Phase × s.State
  unfolding format_log
  after_write has_prev log st (fail failure) = (thrown failure, st)
  after_write has_prev log st (ok (rev, st')) = (format_log has_prev log rev, st')

  unfoldable pub write_body : Bool → JsonValue → s.State → Phase × s.State
  unfolding after_write
  write_body has_prev log st =
      after_write has_prev log st (store_data x s (make_path db r.id) r.old false r.content st)

  -- What follows the write of the log.
  unfoldable pub after_store : Revision → JsonValue → s.State → Result s.State → Phase × s.State
  after_store rev log st (fail failure) = (thrown failure, st)
  after_store rev log st (ok st') =
      (returned (record { code = update_ok; assigned_rev = rev; rev_log = log }), st')

  unfoldable pub write_log : Revision → JsonValue → s.State → Phase × s.State
  unfolding after_store
  write_log rev log st =
      after_store rev log st (s.put (make_path db r.id) (json_to_string x log false) st)

  -- One step of a put. One that has ended makes none.
  unfoldable pub proceed : Phase → s.State → Phase × s.State
  proceed waiting st = (read_log st, st)
  proceed (checked has_prev log) st = write_body has_prev log st
  proceed (formatted rev log) st = write_log rev log st
  proceed (returned res) st = (returned res, st)
  proceed (thrown failure) st = (thrown failure, st)

-- The threads of the server over one storage. An index beyond the threads is never picked.
pub record System (s : Storage) : Type 0 where
  pub state : s.State
  pub phase : ℕ → Phase

abbrev pub set_phase : (ℕ → Phase) → ℕ → Phase → ℕ → Phase
set_phase f i p j = if i == j then p else f j

-- What holds of the new phase of a thread, and of the phases of the others, holds of all.
pub set_phase_all {ℓ} :
    (P : ℕ → Phase → Type ℓ) (f : ℕ → Phase) (i : ℕ) (p : Phase)
    → P i p
    → ((j : ℕ) → P j (f j))
    → (j : ℕ) → P j (set_phase f i p j)
set_phase_all P f i p h others j = go (i == j) refl
  where
    go : (b : Bool) → (i == j) ≡ b → P j (if b then p else f j)
    go true e = subst (λ k. P k p) {x = i} {y = j} (ground (arith, e)) h
    go false e = others j

module _ (x : Externals) (s : Storage) (db : Database) (requests : ℕ → Request) where
  -- The turn of a thread.
  unfoldable pub turn : ℕ → System s → System s
  turn i sys =
      let (p, st) = proceed x s db (requests i) (sys.phase i) sys.state in
      record { state = st; phase = set_phase sys.phase i p }

  -- The threads take turns in the order of a schedule.
  unfoldable pub take_turns : List ℕ → System s → System s
  take_turns [] sys = sys
  take_turns (i ∷ schedule) sys = take_turns schedule (turn i sys)

  -- The states that the threads can come to, from one where no put has begun.
  pub data Reach (st : s.State) : System s → Type 0 where
    begun : Reach st (record { state = st; phase = λ i. waiting })
    later : {sys : System s} (i : ℕ) → Reach st sys → Reach st (turn i sys)
