-- ===== src/Engine/Store.antt =====
-- What the engine's storage returns, by what LevelDB does.
use sofa_db.Prelude.{
  ◌≡◌, ◌↔◌, refl, sym, ◌∙◌, ap, Bool, true, false, none, some, if◌then◌else◌, arith, Bool-cases,
  inl, inr,
}
use sofa_db.Text.{Bytes, bytes_eq}
use sofa_db.Text.Order.{bytes_eq_iff}
use sofa_db.Failure.{Failure, ok, fail, sofa_exception, s_error, err}
use sofa_db.Engine.{LevelDb, check, db_try_get, db_put}

-- The documented behaviour of LevelDB: a status that says that a key is missing is not a success,
-- and a put that succeeds is what a later get of the key finds, while other keys are as before.
pub record IsDocumented (l : LevelDb) : Type 0 where
  pub missing_fails : (t : l.Status) → l.is_not_found t ≡ true → l.is_ok t ≡ false
  pub found_after :
      (sync : Bool) (k v : Bytes) (st : l.State)
      → l.is_ok (l.put sync k v st).0 ≡ true
      → (l.is_ok (l.get k (l.put sync k v st).1).0 ≡ true) × ((l.get k (l.put sync k v st).1).1 ≡ v)
  pub kept_after :
      (sync : Bool) (k j v : Bytes) (st : l.State)
      → bytes_eq k j ≡ false
      → l.get j (l.put sync k v st).1 ≡ l.get j st

-- Where LevelDB finds the key the storage gives its value, where it says that the key is missing
-- the storage says so, and any other status is thrown, with its text.
pub db_try_get_lem :
    (l : LevelDb) (key : Bytes) (st : l.State)
    → IsDocumented l
    → (l.is_ok (l.get key st).0 ≡ true → db_try_get l key st ≡ ok (some (l.get key st).1))
      × (l.is_not_found (l.get key st).0 ≡ true → db_try_get l key st ≡ ok none)
      × (l.is_ok (l.get key st).0 ≡ false
          → l.is_not_found (l.get key st).0 ≡ false
          → db_try_get l key st
            ≡ fail
                (sofa_exception (record { code = s_error; desc = l.to_string (l.get key st).0 })))
unfolding db_try_get check err
db_try_get_lem l key st d =
    let m = d.missing_fails (l.get key st).0 in
    (λ h. ground (arith, m), λ h. ground (arith, m), λ h k. ground (arith, m))

db_put-ok :
    (l : LevelDb) (sync : Bool) (k v : Bytes) (st st' : l.State)
    → db_put l sync k v st ≡ ok st'
    → (l.is_ok (l.put sync k v st).0 ≡ true) × ((l.put sync k v st).1 ≡ st')
unfolding db_put check err
db_put-ok l sync k v st st' h = ground arith

db_try_get-same :
    (l : LevelDb) (key : Bytes) (st st' : l.State)
    → l.get key st ≡ l.get key st'
    → db_try_get l key st ≡ db_try_get l key st'
unfolding db_try_get
db_try_get-same l key st st' h = rw h refl

-- After a put through the storage has returned, a read through it gives what was put under its
-- key, and reads of other keys return or throw what they did before.
pub db_try_get-db_put :
    (l : LevelDb) (sync : Bool) (k j v : Bytes) (st st' : l.State)
    → IsDocumented l
    → db_put l sync k v st ≡ ok st'
    → db_try_get l j st' ≡ (if bytes_eq k j then ok (some v) else db_try_get l j st)
db_try_get-db_put l sync k j v st st' d h =
    let (stored, e) = db_put-ok l sync k v st st' h in
    ap (db_try_get l j) (sym e) ∙ elim (Bool-cases (bytes_eq k j)) [
      | inl same ↦
          let (found, text) = d.found_after sync k v st stored in
          rw (same, ← (bytes_eq_iff k j).0 same)
            ((db_try_get_lem l k (l.put sync k v st).1 d).0 found ∙ ap (λ t. ok (some t)) text)
      | inr other ↦ rw other (db_try_get-same l j _ st (d.kept_after sync k j v st other))
    ]

-- What is thrown of a status.
abbrev pub thrown_of : (l : LevelDb) → l.Status → Failure
thrown_of l t = sofa_exception (record { code = s_error; desc = l.to_string t })

db_put-throws :
    (l : LevelDb) (sync : Bool) (k v : Bytes) (st : l.State)
    → l.is_ok (l.put sync k v st).0 ≡ false
    → db_put l sync k v st ≡ fail (thrown_of l (l.put sync k v st).0)
unfolding db_put check err
db_put-throws l sync k v st h = rw h refl

db_try_get-missing :
    (l : LevelDb) (key : Bytes) (st : l.State)
    → (db_try_get l key st ≡ ok none) ↔ (l.is_not_found (l.get key st).0 ≡ true)
unfolding db_try_get check err
db_try_get-missing l key st = ground arith

-- The engine's storage throws what LevelDB cannot do: a put whose status is no success is
-- thrown, with the status's text; a read says that a key is missing exactly if LevelDB's status
-- says so, and is thrown, with the status's text, where that is neither a success nor a missing
-- key. After a put that returns, a read gives what was put under its key, and reads of other
-- keys return or throw what they did before.
pub create_storage_lem :
    (l : LevelDb) (sync : Bool) (k j v : Bytes) (st : l.State)
    → IsDocumented l
    → (l.is_ok (l.put sync k v st).0 ≡ false
        → db_put l sync k v st ≡ fail (thrown_of l (l.put sync k v st).0))
      × ((db_try_get l j st ≡ ok none) ↔ (l.is_not_found (l.get j st).0 ≡ true))
      × (l.is_ok (l.get j st).0 ≡ false
          → l.is_not_found (l.get j st).0 ≡ false
          → db_try_get l j st ≡ fail (thrown_of l (l.get j st).0))
      × ((st' : l.State)
          → db_put l sync k v st ≡ ok st'
          → db_try_get l j st' ≡ (if bytes_eq k j then ok (some v) else db_try_get l j st))
create_storage_lem l sync k j v st d = (
  db_put-throws l sync k v st,
  db_try_get-missing l j st,
  (db_try_get_lem l j st d).2,
  λ st' h. db_try_get-db_put l sync k j v st st' d h,
)
