-- ===== src/Engine.antt =====
-- DbEngine and the storage that it makes over LevelDB: libsofadb/engine.h and engine.cpp.
pub mod Store
pub mod Reliable
pub mod Life
pub mod Reopen
use sofa_db.Prelude.{
  ℕ, Bool, true, false, not, List, [], ◌∷◌, ◌++◌, Option, none, some, if◌then◌else◌,
}
use sofa_db.Text.{Bytes, bytes_eq}
use sofa_db.Failure.{Result, ok, fail, out_of_range, ◌>>=◌, ◌>>◌, err, s_error}
use sofa_db.Json.Text.{string_to_json, json_to_string}
use sofa_db.Storage.{Storage}
use sofa_db.Database.{Database, new_database, load_database}
use sofa_db.Externals.{Externals}

-- The calls of leveldb::DB and leveldb::Status that the engine makes. `get` gives the status and
-- the value; `put` takes WriteOptions::sync.
pub record LevelDb : Type 1 where
  pub State : Type 0
  pub Status : Type 0
  pub is_ok : Status → Bool
  pub is_not_found : Status → Bool
  pub to_string : Status → Bytes
  pub get : Bytes → State → Status × Bytes
  pub put : Bool → Bytes → Bytes → State → Status × State

module _ (l : LevelDb) where
  -- DbEngine::check
  unfoldable pub check : l.Status → Result (Unit {0})
  unfolding err
  check status = if l.is_ok status then ok tt else err s_error (l.to_string status)

  -- db_storage_t::try_get
  unfoldable pub db_try_get : Bytes → l.State → Result (Option Bytes)
  unfolding check
  db_try_get key st =
      let (status, res) = l.get key st in
      if l.is_not_found status
      then ok none
      else (if not (l.is_ok status) then check status else ok tt) >> ok (some res)

  -- db_storage_t::put
  unfoldable pub db_put : Bool → Bytes → Bytes → l.State → Result l.State
  unfolding check
  db_put sync key val st = let (status, st') = l.put sync key val st in check status >> ok st'

  -- create_storage
  abbrev pub create_storage : Bool → Storage
  create_storage sync = record { State = l.State; try_get = db_try_get; put = db_put sync }

  -- The engine: its LevelDB and the map of the databases that it has made. A Database that is
  -- shared is not changed by any of its operations.
  pub record DbEngine : Type 0 where
    pub keystore : l.State
    pub databases : List (Bytes × Database)

-- db_storage_t::snapshot and release_snapshot
abbrev pub snapshot : Result (Unit {0})
snapshot = fail out_of_range

-- databases_.find(name)
unfoldable pub find_database : Bytes → List (Bytes × Database) → Option Database
find_database name [] = none
find_database name ((key, db) ∷ l) = if bytes_eq key name then some db else find_database name l

-- The key of a database's metadata: "_sys/", the name, "!dbinfo".
unfoldable pub db_info : Bytes → Bytes
db_info name =
    (b'_' ∷ b's' ∷ b'y' ∷ b's' ∷ b'/' ∷ [])
    ++ (name ++ (b'!' ∷ b'd' ∷ b'b' ∷ b'i' ∷ b'n' ∷ b'f' ∷ b'o' ∷ []))

module _ (x : Externals) (l : LevelDb) where
  -- The branches of create_a_database where the map does not hold the name: the keystore has the
  -- metadata, or Get fails. The status of Put is not looked at.
  unfoldable pub load_existing : Bytes → Bytes → DbEngine l → Result (Database × DbEngine l)
  load_existing name out e = do
    meta ← string_to_json x out
    res ← load_database meta
    ok (res, record e { databases = (name, res) ∷ e.databases })

  unfoldable pub create_new : ℕ → Bytes → DbEngine l → Result (Database × DbEngine l)
  create_new now name e = do
    res ← new_database now name
    let written = l.put false (db_info name) (json_to_string x res.meta false) e.keystore
    ok (res, record { keystore = written.1; databases = (name, res) ∷ e.databases })

  unfoldable pub open_database : ℕ → Bytes → DbEngine l → Result (Database × DbEngine l)
  unfolding load_existing create_new
  open_database now name e =
      let (status, out) = l.get (db_info name) e.keystore in
      if l.is_ok status then load_existing name out e else create_new now name e

  -- create_a_database, at the time `now`.
  unfoldable pub create_a_database : ℕ → Bytes → DbEngine l → Result (Database × DbEngine l)
  create_a_database now name e = elim (find_database name e.databases) [
    | none ↦ open_database now name e
    | some db ↦ ok (db, e)
  ]
