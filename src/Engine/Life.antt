-- ===== src/Engine/Life.antt =====
-- The constructor and the destructor of DbEngine (libsofadb/engine.cpp), over LevelDB's files.
use sofa_db.Prelude.{
  ℕ, ◌*◌, ◌^◌, ◌<◌, ◌≡◌, refl, Bool, true, false, [], Option, none, some, if◌then◌else◌,
}
use sofa_db.Text.{Bytes}
use sofa_db.Failure.{Result, ok, fail, undefined, ◌>>=◌}
use sofa_db.Database.{Database}
use sofa_db.Externals.{Externals}
use sofa_db.Externals.Laws
use sofa_db.Engine.{LevelDb, DbEngine, create_a_database, find_database, db_info}
use sofa_db.Engine.Store.{IsDocumented}
use sofa_db.Engine.Reopen.{
  database_of, meta_text, made, over, with_database, open_database-new, open_database-made,
}

-- DB::Open, which gives a null pointer where it fails, the destructor of DB, and DestroyDB.
pub record Files (l : LevelDb) : Type 1 where
  pub Disk : Type 0
  pub open_db : Bytes → Disk → Option l.State × Disk
  pub close_db : Bytes → l.State → Disk → Disk
  pub destroy_db : Bytes → Disk → Disk

module _ (l : LevelDb) (f : Files l) where
  -- A DbEngine that was constructed; its keystore may be a null pointer.
  pub record OpenEngine : Type 0 where
    pub filename : Bytes
    pub temporary : Bool
    pub engine : Option (DbEngine l)

  -- DbEngine::DbEngine: the status of DB::Open is not looked at.
  unfoldable pub construct_engine : Bytes → Bool → f.Disk → OpenEngine × f.Disk
  construct_engine filename temporary disk =
      let (db, disk') = f.open_db filename disk in
      (
        record {
          filename = filename;
          temporary = temporary;
          engine = elim db [
            | none ↦ none
            | some st ↦ some (record { keystore = st; databases = [] })
          ];
        },
        disk',
      )

  -- DbEngine::~DbEngine
  unfoldable pub destruct_engine : OpenEngine → f.Disk → f.Disk
  destruct_engine o disk =
      let closed : f.Disk = elim o.engine [
        | none ↦ disk
        | some e ↦ f.close_db o.filename e.keystore disk
      ] in
      if o.temporary then f.destroy_db o.filename closed else closed

  -- A call on an engine that uses the keystore first, as create_a_database does where no database is
  -- there: undefined where the keystore is a null pointer.
  unfoldable pub call_engine {ℓ} :
      {A : Type ℓ} → (DbEngine l → Result (A × DbEngine l)) → OpenEngine → Result (A × OpenEngine)
  call_engine action o = elim o.engine [
    | none ↦ fail undefined
    | some e ↦ action e >>= λ done. ok (done.0, record o { engine = some done.1 })
  ]

  -- A block with an engine of its own, which no storage of it outlives.
  unfoldable pub with_engine {ℓ} :
      {A : Type ℓ}
      → Bytes
      → Bool
      → (DbEngine l → Result (A × DbEngine l))
      → f.Disk
      → Result (A × f.Disk)
  unfolding construct_engine call_engine destruct_engine
  with_engine filename temporary action disk =
      let (o, disk') = construct_engine filename temporary disk in
      call_engine action o >>= λ done. ok (done.0, destruct_engine done.1 disk')

  -- What is closed is found again, and what is destroyed is opened as an empty database.
  pub record IsPersistent : Type 0 where
    pub empty : l.State
    pub holds_nothing : (k : Bytes) → l.is_ok (l.get k empty).0 ≡ false
    pub reopens :
        (filename : Bytes) (st : l.State) (disk : f.Disk)
        → (f.open_db filename (f.close_db filename st disk)).0 ≡ some st
    pub vanishes :
        (filename : Bytes) (disk : f.Disk)
        → (f.open_db filename (f.destroy_db filename disk)).0 ≡ some empty

  module _ (x : Externals) (d : Laws.IsDocumented x) where
    -- What the disk is after a block whose engine has the given keystore at its end.
    abbrev left_behind : Bytes → Bool → l.State → f.Disk → f.Disk
    left_behind filename temporary st disk =
        if temporary
        then f.destroy_db filename (f.close_db filename st disk)
        else f.close_db filename st disk

    with_engine-eq {ℓ} :
        {A : Type ℓ} (filename : Bytes) (temporary : Bool)
        (action : DbEngine l → Result (A × DbEngine l)) (disk : f.Disk) (st : l.State) (a : A)
        (e : DbEngine l)
        → (f.open_db filename disk).0 ≡ some st
        → action (over x d l st) ≡ ok (a, e)
        → with_engine filename temporary action disk
          ≡ ok (a, left_behind filename temporary e.keystore (f.open_db filename disk).1)
    unfolding with_engine call_engine destruct_engine construct_engine
    with_engine-eq filename temporary action disk st a e h k = rw (h, k) refl

    create_new-over :
        (now : ℕ) (name : Bytes) (st : l.State)
        → l.is_ok (l.get (db_info name) st).0 ≡ false
        → create_a_database x l now name (over x d l st)
          ≡ ok (
            database_of now name,
            with_database x d l name (database_of now name) (over x d l (made x d l now name st)),
          )
    unfolding create_a_database find_database
    create_new-over now name st h = open_database-new x d l now name (over x d l st) h

    create_made-over :
        (k : IsDocumented l) (now later : ℕ) (name : Bytes) (st : l.State)
        → now * 100000 < 2 ^ 63
        → l.is_ok (l.put false (db_info name) (meta_text x d l now name) st).0 ≡ true
        → create_a_database x l later name (over x d l (made x d l now name st))
          ≡ ok (
            database_of now name,
            with_database x d l name (database_of now name) (over x d l (made x d l now name st)),
          )
    unfolding create_a_database find_database
    create_made-over k now later name st b p = open_database-made x d l k now later name st b p

    abbrev pub both : Database × f.Disk → Database × f.Disk → Result (Database × Database)
    both first second = ok (first.0, second.0)

    -- A database that an engine has made is the same, metadata included, in the next engine of the
    -- file, if the first one was not temporary; if it was, the next engine makes it anew, with the
    -- later time. The file could be opened and did not have the database, the write of its
    -- metadata succeeds, and the time in units of 10 microseconds is below 2 ^ 63.
    pub with_engine-twice :
        (k : IsDocumented l) (p : IsPersistent) (filename name : Bytes)
        (temporary temporary' : Bool) (now later : ℕ) (disk : f.Disk) (st : l.State)
        → (f.open_db filename disk).0 ≡ some st
        → now * 100000 < 2 ^ 63
        → l.is_ok (l.get (db_info name) st).0 ≡ false
        → l.is_ok (l.put false (db_info name) (meta_text x d l now name) st).0 ≡ true
        → (with_engine filename temporary (create_a_database x l now name) disk
            >>= λ (first : Database × f.Disk).
                with_engine filename temporary' (create_a_database x l later name) first.1
                >>= λ (second : Database × f.Disk). both first second)
          ≡ ok (database_of now name, database_of (if temporary then later else now) name)
    with_engine-twice k p filename name true temporary' now later disk st h b n w =
        rw
          (
            with_engine-eq filename true (create_a_database x l now name) disk st _ _ h
                (create_new-over now name st n),
            with_engine-eq filename temporary' (create_a_database x l later name)
                (left_behind filename true (made x d l now name st) (f.open_db filename disk).1)
                p.empty _ _ (p.vanishes filename _)
                (create_new-over later name p.empty (p.holds_nothing (db_info name))),
          )
          refl
    with_engine-twice k p filename name false temporary' now later disk st h b n w =
        rw
          (
            with_engine-eq filename false (create_a_database x l now name) disk st _ _ h
                (create_new-over now name st n),
            with_engine-eq filename temporary' (create_a_database x l later name)
                (left_behind filename false (made x d l now name st) (f.open_db filename disk).1)
                (made x d l now name st) _ _ (p.reopens filename _ _)
                (create_made-over k now later name st b w),
          )
          refl
