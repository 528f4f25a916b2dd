-- ===== src/Tests/Engines.antt =====
-- The theorems on the engine, over a LevelDB in memory.
use sofa_db.Prelude.{
  ℕ, length, ◌==◌, ◌↔◌, ◌≡◌, refl, Bool, true, false, not, List, [], ◌∷◌, Option, none, some,
  if◌then◌else◌, arith,
}
use sofa_db.Text.{Bytes, bytes_eq}
use sofa_db.Text.Order.{bytes_eq_refl}
use sofa_db.Failure.{fail, ok, ◌>>=◌}
use sofa_db.Storage.Memory.{lookup_in}
use sofa_db.Database.{Database}
use sofa_db.Engine.{LevelDb, db_try_get, db_put, create_a_database}
use sofa_db.Engine.Store.{IsDocumented, create_storage_lem, thrown_of}
use sofa_db.Engine.Reopen.{database_of}
use sofa_db.Engine.Life.{Files, IsPersistent, with_engine, with_engine-twice, both}
use sofa_db.Tests.Codec.{libraries, documented}
use sofa_db.Tests.Data.{doc}

abbrev status_of : Option Bytes → Bool × Bytes
status_of none = (false, [])
status_of (some v) = (true, v)

-- A status is whether the call succeeded.
abbrev pub level : LevelDb
level = record {
  State = List (Bytes × Bytes);
  Status = Bool;
  is_ok = λ b. b;
  is_not_found = not;
  to_string = λ b. [];
  get = λ k st. status_of (lookup_in k st);
  put = λ sync k v st. (true, (k, v) ∷ st);
}

pub level-IsDocumented : IsDocumented level
unfolding lookup_in
level-IsDocumented = record {
  missing_fails = λ t h. ground (arith, h);
  found_after = λ sync k v st h. rw (bytes_eq_refl k) (refl, refl);
  kept_after = λ sync k j v st h. rw h refl;
}

-- A LevelDB whose writes fail, and whose reads do for a key of one byte.
abbrev failing : LevelDb
failing = record {
  State = Unit {0};
  Status = ℕ;
  is_ok = λ t. t == 0;
  is_not_found = λ t. t == 1;
  to_string = λ t. t ∷ [];
  get = λ k st. if length k == 1 then (5, []) else (1, []);
  put = λ sync k v st. (5, st);
}

failing-IsDocumented : IsDocumented failing
failing-IsDocumented = record {
  missing_fails = λ t h. ground (arith, h);
  found_after = λ sync k v st h. absurd (cc h);
  kept_after = λ sync k j v st h. refl;
}

create_storage_lem_example :
    (false ≡ false → db_put failing true doc doc tt ≡ fail (thrown_of failing 5))
    × ((db_try_get failing (b'x' ∷ []) tt ≡ ok none) ↔ (false ≡ true))
    × (false ≡ false
        → false ≡ false
        → db_try_get failing (b'x' ∷ []) tt ≡ fail (thrown_of failing 5))
    × ((st' : failing.State)
        → db_put failing true doc doc tt ≡ ok st'
        → db_try_get failing (b'x' ∷ []) st'
          ≡ (if bytes_eq doc (b'x' ∷ []) then ok (some doc) else db_try_get failing (b'x' ∷ []) tt))
create_storage_lem_example =
    create_storage_lem failing true doc (b'x' ∷ []) doc tt failing-IsDocumented

-- A disk in memory, with a database for each name; one that was not closed is empty.
abbrev files : Files level
files = record {
  Disk = Bytes → List (Bytes × Bytes);
  open_db = λ filename disk. (some (disk filename), disk);
  close_db = λ filename st disk j. if bytes_eq j filename then st else disk j;
  destroy_db = λ filename disk j. if bytes_eq j filename then [] else disk j;
}

files-IsPersistent : IsPersistent level files
unfolding lookup_in
files-IsPersistent = record {
  empty = [];
  holds_nothing = λ k. refl;
  reopens = λ filename st disk. rw (bytes_eq_refl filename) refl;
  vanishes = λ filename disk. rw (bytes_eq_refl filename) refl;
}

with_engine-twice_example :
    (with_engine level files doc false (create_a_database libraries level 5 doc) (λ j. [])
      >>= λ (first : Database × files.Disk).
          with_engine level files doc true (create_a_database libraries level 9 doc) first.1
          >>= λ (second : Database × files.Disk).
              both level files libraries documented first second)
    ≡ ok (database_of 5 doc, database_of 5 doc)
with_engine-twice_example =
    with_engine-twice level files libraries documented level-IsDocumented files-IsPersistent doc doc
      false true 5 9 (λ j. []) [] refl (omega arith) (unfold lookup_in in refl) refl
