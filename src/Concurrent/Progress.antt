-- ===== src/Concurrent/Progress.antt =====
-- How many turns a put takes.
use sofa_db.Prelude.{
  ℕ, suc, ◌-◌, ◌≤◌, ◌≡◌, refl, Bool, true, false, List, [], ◌∷◌, ◌==◌, if◌then◌else◌, arith,
}
use sofa_db.Failure.{Result, ok, fail}
use sofa_db.Json.Value.{JsonValue}
use sofa_db.Revision.{Revision}
use sofa_db.Storage.{Storage}
use sofa_db.Database.{Database}
use sofa_db.Externals.{Externals}
use sofa_db.Concurrent.{
  Request, Phase, waiting, checked, formatted, returned, thrown, after_compare, after_read,
  after_format, after_write, read_log, format_log, write_body, after_store, write_log, proceed,
  System, turn, take_turns,
}

-- The turns that a put has still to take, at most.
unfoldable pub remaining : Phase → ℕ
remaining waiting = 3
remaining (checked has_prev log) = 2
remaining (formatted rev log) = 1
remaining (returned res) = 0
remaining (thrown failure) = 0

unfoldable pub has_ended : Phase → Bool
has_ended (returned res) = true
has_ended (thrown failure) = true
has_ended _ = false

-- How often a schedule picks a thread.
unfoldable pub turns_of : ℕ → List ℕ → ℕ
turns_of i [] = 0
turns_of i (j ∷ schedule) = let rest = turns_of i schedule in if j == i then suc rest else rest

pub has_ended-remaining : (p : Phase) → remaining p ≡ 0 → has_ended p ≡ true
unfolding remaining has_ended
has_ended-remaining (returned res) h = refl
has_ended-remaining (thrown failure) h = refl
has_ended-remaining _ h = absurd (omega arith)

module _ (x : Externals) (s : Storage) (db : Database) where
  remaining-after_compare :
      (r : Request) (has_prev : Bool) (log : JsonValue) (compared : Result Bool)
      → remaining (after_compare x s db r has_prev log compared) ≤ 2
  unfolding remaining after_compare
  remaining-after_compare r has_prev log (fail failure) = omega arith
  remaining-after_compare r has_prev log (ok true) = omega arith
  remaining-after_compare r has_prev log (ok false) = omega arith

  remaining-after_read :
      (r : Request) (found : Result (Bool × JsonValue)) → remaining (after_read x s db r found) ≤ 2
  unfolding after_read
  remaining-after_read r (fail failure) = unfold remaining in omega arith
  remaining-after_read r (ok (has_prev, log)) = remaining-after_compare r has_prev log _

  remaining-after_format :
      (r : Request) (rev : Revision) (formed : Result JsonValue)
      → remaining (after_format x s db r rev formed) ≤ 1
  unfolding remaining after_format
  remaining-after_format r rev (fail failure) = omega arith
  remaining-after_format r rev (ok log') = omega arith

  remaining-after_write :
      (r : Request) (has_prev : Bool) (log : JsonValue) (st : s.State)
      (written : Result (Revision × s.State))
      → remaining (after_write x s db r has_prev log st written).0 ≤ 1
  unfolding after_write format_log
  remaining-after_write r has_prev log st (fail failure) = unfold remaining in omega arith
  remaining-after_write r has_prev log st (ok (rev, st')) = remaining-after_format r rev _

  remaining-write_log :
      (r : Request) (rev : Revision) (log : JsonValue) (st : s.State)
      → remaining (write_log x s db r rev log st).0 ≡ 0
  unfolding remaining write_log after_store
  remaining-write_log r rev log st = ground arith

  pub remaining-proceed :
      (r : Request) (p : Phase) (st : s.State)
      → remaining (proceed x s db r p st).0 ≤ remaining p - 1
  unfolding remaining proceed
  remaining-proceed r waiting st = unfold read_log in remaining-after_read r _
  remaining-proceed r (checked has_prev log) st =
      unfold write_body in remaining-after_write r has_prev log st _
  remaining-proceed r (formatted rev log) st = omega (arith, remaining-write_log r rev log st)
  remaining-proceed r (returned res) st = omega arith
  remaining-proceed r (thrown failure) st = omega arith

  module _ (requests : ℕ → Request) where
    remaining-turn :
        (i j : ℕ) (sys : System s)
        → remaining ((turn x s db requests j sys).phase i)
          ≤ remaining (sys.phase i) - (if j == i then 1 else 0)
    unfolding turn
    remaining-turn i j sys = ground (arith, remaining-proceed (requests j) (sys.phase j) sys.state)

    remaining-take_turns :
        (i : ℕ) (schedule : List ℕ) (sys : System s)
        → remaining ((take_turns x s db requests schedule sys).phase i)
          ≤ remaining (sys.phase i) - turns_of i schedule
    unfolding take_turns turns_of
    remaining-take_turns i [] sys = omega arith
    remaining-take_turns i (j ∷ schedule) sys = ground (
      arith,
      remaining-turn i j sys,
      remaining-take_turns i schedule (turn x s db requests j sys),
    )

    remaining_bound : (p : Phase) → remaining p ≤ 3
    unfolding remaining
    remaining_bound waiting = omega arith
    remaining_bound (checked has_prev log) = omega arith
    remaining_bound (formatted rev log) = omega arith
    remaining_bound (returned res) = omega arith
    remaining_bound (thrown failure) = omega arith

    -- A put ends, with a result or an exception, once its thread has had three turns, wherever the
    -- put stood before, whichever turns the other threads take, whatever they put and whatever
    -- the storage answers: no put waits for another.
    pub take_turns-ends :
        (i : ℕ) (schedule : List ℕ) (sys : System s)
        → 3 ≤ turns_of i schedule
        → has_ended ((take_turns x s db requests schedule sys).phase i) ≡ true
    take_turns-ends i schedule sys h =
        has_ended-remaining _
          (omega (arith, remaining-take_turns i schedule sys, remaining_bound (sys.phase i)))
