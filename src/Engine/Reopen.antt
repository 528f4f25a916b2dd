-- ===== src/Engine/Reopen.antt =====
-- create_a_database (libsofadb/engine.cpp), called more than once for a name.
use sofa_db.Prelude.{
  ℕ, ◌*◌, ◌^◌, ◌<◌, ◌≡◌, ◌≢◌, refl, sym, ◌∙◌, ap, true, false, List, [], ◌∷◌, ◌++◌, some, arith,
  Bool-cases, Option-cases, inl, inr,
}
use sofa_db.Prelude.Int.{pos}
use sofa_db.Text.{Bytes, bytes_eq, bytes_lt}
use sofa_db.Text.Order.{bytes_eq_refl}
use sofa_db.Failure.{ok, ◌>>=◌}
use sofa_db.Failure.Laws.{>>=-ok, ok-injective}
use sofa_db.Json.Value.{JsonValue, int, str, submap, field, no_fields}
use sofa_db.Json.Containers.{index_key, assign_key, set_field, find_field}
use sofa_db.Json.Access.{get_str}
use sofa_db.Json.Plain.{IsPlain, settled}
use sofa_db.Json.Text.{string_to_json, json_to_string}
use sofa_db.Json.Text.RoundTrip.{string_to_json-json_to_string}
use sofa_db.Database.{
  Database, new_database, load_database, instance_start_time, db_name, make_path,
}
use sofa_db.Externals.{Externals}
use sofa_db.Externals.Laws
use sofa_db.Engine.{
  LevelDb, DbEngine, create_a_database, open_database, load_existing, create_new, find_database,
  db_info,
}
use sofa_db.Engine.Store.{IsDocumented}

-- The metadata of a database that is made at a time.
abbrev pub meta_of : ℕ → Bytes → JsonValue
meta_of now name =
    submap
      (field db_name (str name) (field instance_start_time (int (pos (now * 100000))) no_fields))

abbrev pub database_of : ℕ → Bytes → Database
database_of now name = record { closed = false; name = name; meta = meta_of now name }

new_database-eq : (now : ℕ) (name : Bytes) → new_database now name ≡ ok (database_of now name)
unfolding new_database assign_key set_field bytes_eq bytes_lt
new_database-eq now name = refl

load_database-meta_of :
    (now : ℕ) (name : Bytes) → load_database (meta_of now name) ≡ ok (database_of now name)
unfolding load_database index_key find_field get_str bytes_eq
load_database-meta_of now name = refl

meta_of-IsPlain : (now : ℕ) (name : Bytes) → now * 100000 < 2 ^ 63 → IsPlain (meta_of now name)
unfolding bytes_lt
meta_of-IsPlain now name h =
    (((refl, tt), (tt, tt)), ((λ e. cc), tt, ((λ e. cc), ground arith, tt)))

find_database-first :
    (name : Bytes) (db : Database) (l : List (Bytes × Database))
    → find_database name ((name, db) ∷ l) ≡ some db
unfolding find_database
find_database-first name db l = rw (bytes_eq_refl name) refl

-- The key of a database's metadata is no key of a document.
pub db_info-ne-make_path :
    (name : Bytes) (db : Database) (id r : Bytes) → db_info name ≢ make_path db id ++ r
unfolding db_info make_path
db_info-ne-make_path name db id r e = ground (arith, e)

module _ (x : Externals) (d : Laws.IsDocumented x) (l : LevelDb) where
  -- A new engine over a keystore.
  abbrev pub over : l.State → DbEngine l
  over st = record { keystore = st; databases = [] }

  abbrev pub with_database : Bytes → Database → DbEngine l → DbEngine l
  with_database name db e = record e { databases = (name, db) ∷ e.databases }

  -- The text that is put for a database.
  abbrev pub meta_text : ℕ → Bytes → Bytes
  meta_text now name = json_to_string x (meta_of now name) false

  -- The keystore after a database was made.
  abbrev pub made : ℕ → Bytes → l.State → l.State
  made now name st = (l.put false (db_info name) (meta_text now name) st).1

  pub open_database-new :
      (now : ℕ) (name : Bytes) (e : DbEngine l)
      → l.is_ok (l.get (db_info name) e.keystore).0 ≡ false
      → open_database x l now name e
        ≡ ok (
          database_of now name,
          with_database name
              (database_of now name)
              (record e { keystore = made now name e.keystore }),
        )
  unfolding open_database create_new
  open_database-new now name e h = rw (h, new_database-eq now name) refl

  string_to_json-meta_text :
      (now : ℕ) (name : Bytes)
      → now * 100000 < 2 ^ 63
      → string_to_json x (meta_text now name) ≡ ok (meta_of now name)
  unfolding settled
  string_to_json-meta_text now name h =
      string_to_json-json_to_string x d (meta_of now name) (meta_of-IsPlain now name h) tt

  pub open_database-made :
      (k : IsDocumented l) (now later : ℕ) (name : Bytes) (st : l.State)
      → now * 100000 < 2 ^ 63
      → l.is_ok (l.put false (db_info name) (meta_text now name) st).0 ≡ true
      → open_database x l later name (over (made now name st))
        ≡ ok (
          database_of now name,
          with_database name (database_of now name) (over (made now name st)),
        )
  unfolding open_database load_existing
  open_database-made k now later name st b h =
      let (found, text) = k.found_after false (db_info name) (meta_text now name) st h in
      rw (found, text, string_to_json-meta_text now name b, load_database-meta_of now name) refl

  -- A database that an engine has made is the same, metadata included, when another engine is
  -- opened over the keystore, at any time. The keystore did not have it, the write of its
  -- metadata succeeds, and the time in units of 10 microseconds is below 2 ^ 63.
  pub create_a_database-reopen :
      (k : IsDocumented l) (now later : ℕ) (name : Bytes) (st : l.State)
      → now * 100000 < 2 ^ 63
      → l.is_ok (l.get (db_info name) st).0 ≡ false
      → l.is_ok (l.put false (db_info name) (meta_text now name) st).0 ≡ true
      → (create_a_database x l now name (over st) >>= λ (made_one : Database × DbEngine l).
          create_a_database x l later name (over made_one.1.keystore))
        ≡ ok (
          database_of now name,
          with_database name (database_of now name) (over (made now name st)),
        )
  unfolding create_a_database find_database
  create_a_database-reopen k now later name st b h p =
      rw (open_database-new now name (over st) h) (open_database-made k now later name st b p)

  kept_first :
      (name : Bytes) (db : Database) (rest : List (Bytes × Database)) (st : l.State)
      (done : Database × DbEngine l)
      → ok (db, record { keystore = st; databases = (name, db) ∷ rest }) ≡ ok done
      → find_database name done.1.databases ≡ some done.0
  kept_first name db rest st done h =
      let e = ok-injective h in
      ap (λ (t : Database × DbEngine l). find_database name t.1.databases) (sym e)
      ∙ find_database-first name db rest
      ∙ ap (λ (t : Database × DbEngine l). some t.0) e

  load_existing-kept :
      (name out : Bytes) (e : DbEngine l) (done : Database × DbEngine l)
      → load_existing x l name out e ≡ ok done
      → find_database name done.1.databases ≡ some done.0
  unfolding load_existing
  load_existing-kept name out e done h =
      let (meta, h1, _) = >>=-ok _ (string_to_json x out) h in
      let (db, h2, _) = >>=-ok _ (load_database meta) h1 in
      kept_first name db e.databases e.keystore done h2

  open_database-kept :
      (now : ℕ) (name : Bytes) (e : DbEngine l) (done : Database × DbEngine l)
      → open_database x l now name e ≡ ok done
      → find_database name done.1.databases ≡ some done.0
  unfolding open_database create_new
  open_database-kept now name e done h =
      let found = l.get (db_info name) e.keystore in
      elim (Bool-cases (l.is_ok found.0)) [
        | inl stored ↦ load_existing-kept name found.1 e done (rw stored at h)
        | inr fresh ↦
            kept_first name (database_of now name) e.databases (made now name e.keystore) done
              (rw (fresh, new_database-eq now name) at h)
      ]

  find_database-created :
      (now : ℕ) (name : Bytes) (e : DbEngine l) (done : Database × DbEngine l)
      → create_a_database x l now name e ≡ ok done
      → find_database name done.1.databases ≡ some done.0
  unfolding create_a_database
  find_database-created now name e done h = elim (Option-cases (find_database name e.databases)) [
    | inl none_there ↦ open_database-kept now name e done (rw (create_a_database, none_there) at h)
    | inr (db, there) ↦
        let same = ok-injective (rw (create_a_database, there) at h) in
        ap (λ (t : Database × DbEngine l). find_database name t.1.databases) (sym same)
        ∙ there
        ∙ ap (λ (t : Database × DbEngine l). some t.0) same
  ]

  -- Once an engine has returned a database for a name, it returns that one for it, at any time,
  -- and changes nothing.
  pub create_a_database-again :
      (now later : ℕ) (name : Bytes) (e : DbEngine l) (done : Database × DbEngine l)
      → create_a_database x l now name e ≡ ok done
      → create_a_database x l later name done.1 ≡ ok done
  unfolding create_a_database
  create_a_database-again now later name e done h =
      let there = find_database-created now name e done h in rw (create_a_database, there) refl
