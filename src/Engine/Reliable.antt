-- ===== src/Engine/Reliable.antt =====
-- The engine's storage over a LevelDB that does not fail.
use sofa_db.Prelude.{
  ◌≡◌, refl, ◌⊎◌, inl, inr, Bool, true, false, Option, none, some, if◌then◌else◌, arith, Bool-cases,
}
use sofa_db.Text.{Bytes, bytes_eq}
use sofa_db.Text.Order.{bytes_eq_iff}
use sofa_db.Failure.{ok}
use sofa_db.Storage.{IsMap}
use sofa_db.Engine.{LevelDb, check, db_try_get, db_put, create_storage}
use sofa_db.Engine.Store.{IsDocumented}

-- Every put succeeds, and every get finds its key or says that it is missing.
pub record IsReliable (l : LevelDb) : Type 0 where
  pub puts_well : (sync : Bool) (k v : Bytes) (st : l.State) → l.is_ok (l.put sync k v st).0 ≡ true
  pub gets_well :
      (k : Bytes) (st : l.State)
      → (l.is_ok (l.get k st).0 ≡ true) ⊎ (l.is_not_found (l.get k st).0 ≡ true)

module _ (l : LevelDb) (d : IsDocumented l) (reliable : IsReliable l) where
  abbrev pub found_in : Bytes → l.State → Option Bytes
  found_in k st = if l.is_not_found (l.get k st).0 then none else some (l.get k st).1

  pub db_try_get-found_in : (k : Bytes) (st : l.State) → db_try_get l k st ≡ ok (found_in k st)
  unfolding db_try_get
  db_try_get-found_in k st = elim (reliable.gets_well k st) [
    | inl well ↦ ground (arith, well, d.missing_fails (l.get k st).0)
    | inr missing ↦ rw missing refl
  ]

  pub db_put_well : (k v : Bytes) (st : l.State) → db_put l false k v st ≡ ok (l.put false k v st).1
  unfolding db_put check
  db_put_well k v st = rw (reliable.puts_well false k v st) refl

  pub found_in-put :
      (k j v : Bytes) (st : l.State)
      → found_in j (l.put false k v st).1 ≡ (if bytes_eq k j then some v else found_in j st)
  found_in-put k j v st = elim (Bool-cases (bytes_eq k j)) [
    | inl same ↦
        let (well, text) = d.found_after false k v st (reliable.puts_well false k v st) in
        rw (same, ← (bytes_eq_iff k j).0 same)
          (ground (arith, well, text, d.missing_fails (l.get k (l.put false k v st).1).0))
    | inr other ↦ rw (other, d.kept_after false k j v st other) refl
  ]

  -- It is a map from keys to texts.
  abbrev pub create_storage-IsMap : IsMap (create_storage l false)
  create_storage-IsMap = record {
    lookup = found_in;
    store = λ k v st. (l.put false k v st).1;
    gets = db_try_get-found_in;
    puts = db_put_well;
    lookup-store = found_in-put;
  }
