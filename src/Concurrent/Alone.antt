-- ===== src/Concurrent/Alone.antt =====
-- A put that no other thread disturbs.
use sofa_db.Prelude.{ℕ, ◌≡◌, refl, ◌∙◌, Bool, true, false, not, ◌&&◌, if◌then◌else◌, arith}
use sofa_db.Failure.{Result, ok, fail, undefined, ◌>>=◌, ◌>>◌, assert}
use sofa_db.Json.Value.{JsonValue}
use sofa_db.Json.Text.{json_to_string}
use sofa_db.Revision.{Revision, empty_revision, is_empty}
use sofa_db.Storage.{Storage}
use sofa_db.Database.{Database, PutResult, update_ok, update_conflict, check_closed, make_path}
use sofa_db.Database.Put.{mismatches, extend_log, get_revlog, store_data, update_document, put}
use sofa_db.Externals.{Externals}
use sofa_db.Concurrent.{
  Request, Phase, waiting, returned, thrown, after_read, after_compare, read_log, format_log,
  after_format, after_write, write_body, after_store, write_log, proceed,
}

-- How a put has ended, with the storage.
unfoldable pub outcome {ℓ} : {S : Type ℓ} → Phase × S → Result (PutResult × S)
outcome (returned res, st) = ok (res, st)
outcome (thrown failure, st) = fail failure
outcome (_, st) = fail undefined

>>_assoc {ℓ κ} :
    {A : Type ℓ} {B : Type κ} (first : Result (Unit {0})) (m : Result A) (k : A → Result B)
    → ((first >> m) >>= k) ≡ (first >> (m >>= k))
>>_assoc (ok tt) m k = refl
>>_assoc (fail failure) m k = refl

module _ (x : Externals) (s : Storage) (db : Database) (r : Request) where
  abbrev pub next : Phase × s.State → Phase × s.State
  next (p, st) = proceed x s db r p st

  outcome-write_log :
      (rev : Revision) (log : JsonValue) (st : s.State)
      → outcome (write_log x s db r rev log st) ≡ (
          s.put (make_path db r.id) (json_to_string x log false) st >>= λ st'.
          ok (record { code = update_ok; assigned_rev = rev; rev_log = log }, st'))
  unfolding outcome write_log after_store
  outcome-write_log rev log st = ground arith

  outcome-formatted :
      (rev : Revision) (st : s.State) (formed : Result JsonValue)
      → outcome (next (after_format x s db r rev formed, st)) ≡ (
          formed >>= λ log'.
          (s.put (make_path db r.id) (json_to_string x log' false) st >>= λ st'.
          ok (record { code = update_ok; assigned_rev = rev; rev_log = log' }, st')))
  unfolding after_format proceed
  outcome-formatted rev st (fail failure) = unfold outcome in refl
  outcome-formatted rev st (ok log') = outcome-write_log rev log' st

  outcome-written :
      (room : ℕ) (has_prev : Bool) (log : JsonValue) (st : s.State)
      (written : Result (Revision × s.State))
      → outcome (next (after_write x s db r has_prev log st written)) ≡ (
          written >>= λ stored.
          (assert (not (is_empty stored.0))
            >> (extend_log has_prev r.old stored.0 log >>= λ log'.
                (s.put (make_path db r.id) (json_to_string x log' false) stored.1 >>= λ st'.
                ok (record { code = update_ok; assigned_rev = stored.0; rev_log = log' }, st')))))
  unfolding after_write format_log
  outcome-written room has_prev log st (fail failure) = unfold proceed outcome in refl
  outcome-written room has_prev log st (ok (rev, st')) =
      outcome-formatted rev st' _
      ∙ >>_assoc (assert (not (is_empty rev))) (extend_log has_prev r.old rev log) _

  outcome-write_body :
      (room : ℕ) (has_prev : Bool) (log : JsonValue) (st : s.State)
      → outcome (next (write_body x s db r has_prev log st))
        ≡ update_document x s room (make_path db r.id) r.old r.content has_prev false log st
  unfolding write_body update_document
  outcome-write_body room has_prev log st =
      outcome-written room has_prev log st
        (store_data x s (make_path db r.id) r.old false r.content st)

  -- The rest of put from the comparison on, and from the read on.
  abbrev rest_of_put : ℕ → s.State → Bool → JsonValue → Bool → Result (PutResult × s.State)
  rest_of_put room st has_prev log conflict =
      if conflict && true
      then ok (record { code = update_conflict; assigned_rev = empty_revision; rev_log = log }, st)
      else update_document x s room (make_path db r.id) r.old r.content has_prev conflict log st

  outcome-after_compare :
      (room : ℕ) (st : s.State) (has_prev : Bool) (log : JsonValue) (compared : Result Bool)
      → outcome (next (next (after_compare x s db r has_prev log compared, st)))
        ≡ (compared >>= rest_of_put room st has_prev log)
  unfolding after_compare proceed
  outcome-after_compare room st has_prev log (fail failure) = unfold outcome in refl
  outcome-after_compare room st has_prev log (ok true) = unfold outcome in refl
  outcome-after_compare room st has_prev log (ok false) = outcome-write_body room has_prev log st

  outcome-after_read :
      (room : ℕ) (st : s.State) (found : Result (Bool × JsonValue))
      → outcome (next (next (after_read x s db r found, st))) ≡ (
          found >>= λ f.
          ((if f.0 then mismatches r.old f.1 else ok false) >>= rest_of_put room st f.0 f.1))
  unfolding after_read
  outcome-after_read room st (fail failure) = unfold proceed outcome in refl
  outcome-after_read room st (ok (has_prev, log)) = outcome-after_compare room st has_prev log _

  -- A put that asks for no merge and that no other put disturbs, taken in its three steps, ends as
  -- put does: with what put returns and the storage that it leaves, or with what it throws.
  pub proceed-put :
      (room : ℕ) (st : s.State)
      → outcome (next (next (next (waiting, st)))) ≡ put x s db room r.id r.old r.content false st
  unfolding put read_log proceed
  proceed-put room st =
      outcome-after_read room st _
      ∙ >>_assoc (check_closed db) (get_revlog x s (make_path db r.id) st) _
