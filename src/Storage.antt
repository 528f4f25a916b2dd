-- ===== src/Storage.antt =====
-- storage_t, the interface that a database reads and writes through:
-- libsofadb/storage_interface.h.
pub mod Memory
use sofa_db.Prelude.{◌≡◌, Option, none, some, if◌then◌else◌}
use sofa_db.Text.{Bytes, bytes_eq}
use sofa_db.Failure.{Result, ok}

-- The calls a database makes. A storage may fail, as one does over a disk.
pub record Storage : Type 1 where
  pub State : Type 0
  pub try_get : Bytes → State → Result (Option Bytes)
  pub put : Bytes → Bytes → State → Result State

-- A storage that does not fail and that holds what was written last under each key.
pub record IsMap (s : Storage) : Type 0 where
  pub lookup : Bytes → s.State → Option Bytes
  pub store : Bytes → Bytes → s.State → s.State
  pub gets : (k : Bytes) (st : s.State) → s.try_get k st ≡ ok (lookup k st)
  pub puts : (k v : Bytes) (st : s.State) → s.put k v st ≡ ok (store k v st)
  pub lookup-store :
      (k j v : Bytes) (st : s.State)
      → lookup j (store k v st) ≡ (if bytes_eq k j then some v else lookup j st)
