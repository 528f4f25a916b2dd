-- ===== src/Concurrent/Across.antt =====
-- A get whose reads of the log and of the body stand apart, with turns of other threads between.
use sofa_db.Prelude.{ℕ, ◌≡◌, refl, ◌⊎◌, inl, inr, Bool, false, List, [], ◌∷◌, none, some}
use sofa_db.Text.{Bytes, contains}
use sofa_db.Failure.{Result, ok, ◌>>=◌}
use sofa_db.Json.Value.{JsonValue}
use sofa_db.Json.Text.{string_to_json}
use sofa_db.Revision.{Revision, make_revision}
use sofa_db.Revlog.Plain.{string_to_json-represent}
use sofa_db.Revlog.Refines.{top_rev_id-represent}
use sofa_db.Storage.{Storage, IsMap}
use sofa_db.Database.{Database, make_path}
use sofa_db.Database.Get.{GetResult, Wanted, get, read_logged, read_with_log}
use sofa_db.Database.Get.Reads.{read_document-body}
use sofa_db.Database.Get.AfterPut.{content_and_rev}
use sofa_db.Externals.{Externals}
use sofa_db.Externals.Laws.{IsDocumented}
use sofa_db.Concurrent.{Request, System, turn, take_turns, Reach}
use sofa_db.Concurrent.Sound.{IsFair, HasBody, Published, IsReadable, IsSound}
use sofa_db.Concurrent.Steps.{proceed-Kept}
use sofa_db.Concurrent.Readable.{nothing, reading, Reach-IsSound, turn-IsSound}

module _ (x : Externals) (s : Storage) (db : Database) where
  -- A get that names no revision, with the storage at the read of the log and at that of the body.
  unfoldable pub get_across : Bytes → Wanted → s.State → s.State → Result GetResult
  unfolding read_with_log
  get_across id want st st' = do
    found ← s.try_get (make_path db id) st
    elim found [
      | none ↦ ok nothing
      | some text ↦
          string_to_json x text >>= λ log. read_with_log x s (make_path db id) id none want log st'
    ]

  -- Where the storage is the same at both, it is a get.
  pub get_across_same :
      (id : Bytes) (st : s.State)
      → get_across id content_and_rev st st ≡ get x s db id none content_and_rev st
  unfolding get_across get read_logged
  get_across_same id st = refl

module _ (x : Externals) (d : IsDocumented x) (s : Storage) (m : IsMap s) (db : Database)
    (is_open : db.closed ≡ false) (unnulled : contains db.name 0 ≡ false) (requests : ℕ → Request)
    (fair : (i : ℕ) → IsFair (requests i)) where
  HasBody-turn :
      (i : ℕ) (id : Bytes) (rev : Revision) (sys : System s)
      → IsSound x s m db requests sys
      → HasBody x s m (make_path db id) rev sys.state
      → HasBody x s m (make_path db id) rev (turn x s db requests i sys).state
  unfolding turn
  HasBody-turn i id rev sys sound b =
      let kept =
        proceed-Kept x d s m db is_open unnulled (requests i) (fair i) sys.state (sys.phase i)
          (sound.documents (requests i).id) (sound.threads i) in
      kept.bodies id rev b

  HasBody-take_turns :
      (schedule : List ℕ) (id : Bytes) (rev : Revision) (sys : System s)
      → IsSound x s m db requests sys
      → HasBody x s m (make_path db id) rev sys.state
      → HasBody x s m (make_path db id) rev (take_turns x s db requests schedule sys).state
  unfolding take_turns
  HasBody-take_turns [] id rev sys sound b = b
  HasBody-take_turns (i ∷ schedule) id rev sys sound b =
      HasBody-take_turns schedule id rev (turn x s db requests i sys)
        (turn-IsSound x d s m db is_open unnulled requests fair i sys sound)
        (HasBody-turn i id rev sys sound b)

  get_across-absent :
      (id : Bytes) (st st' : s.State)
      → m.lookup (make_path db id) st ≡ none
      → get_across x s db id content_and_rev st st' ≡ ok nothing
  unfolding get_across
  get_across-absent id st st' h = rw (m.gets (make_path db id) st, h) refl

  get_across-Published :
      (id : Bytes) (st st' : s.State) (p : Published x s m (make_path db id) st)
      (b : HasBody x s m (make_path db id) p.last.rev st')
      → get_across x s db id content_and_rev st st'
        ≡ ok
            (reading id (make_revision x p.last.rev.num p.last.rev.uniq) b.prev b.deleted b.content)
  unfolding get_across
  get_across-Published id st st' p b =
      rw
        (
          m.gets (make_path db id) st,
          p.holds.text,
          string_to_json-represent x d p.view p.holds.fits,
          top_rev_id-represent x p.view p.last p.holds.at_top p.last_fits,
        )
        (read_document-body x d s m (make_path db id) id
          (make_revision x p.last.rev.num p.last.rev.uniq) b.prev b.deleted b.content st'
          content_and_rev none b.found b.plain b.readable)

  -- A get that names no revision and asks for the content and the revision, but not for the log,
  -- that reads the log in any state that puts of several threads can come to, each thread at any
  -- point of its put or stopped there for good, and that reads the body after any further turns
  -- of theirs, either says that there is no document or returns a content and a revision: it
  -- throws nothing, and never finds that the revision at the top of the log has no body. The
  -- database is open and its name holds no NUL, and the storage does not fail. Each document has
  -- no log at first, or a log as put writes it, with numbers that fit a uint32_t, and the body
  -- of the revision at its top: the text of that revision holds no '@', the revision before it
  -- is read back from its text, and the content of the body holds no double and no empty key,
  -- its ints fit an int64_t, its maps are in order and its big integers are decimal texts. Of
  -- each request the number of the old revision is below 2 ^ 31 - 1, the old revision is read
  -- back from its text, and the content is such a content too.
  pub get_across-take_turns :
      (id : Bytes) (st : s.State) (sys : System s) (schedule : List ℕ)
      → ((i : Bytes) → IsReadable x s m (make_path db i) st)
      → Reach x s db requests st sys
      → (get_across x s db id content_and_rev sys.state
            (take_turns x s db requests schedule sys).state
          ≡ ok nothing)
        ⊎ ((num prev : Revision) × ((deleted : Bool) × ((content : JsonValue) × (get_across x s db
                    id content_and_rev sys.state
                    (take_turns x s db requests schedule sys).state
                  ≡ ok (reading id num prev deleted content)))))
  get_across-take_turns id st sys schedule readable r =
      let sound = Reach-IsSound x d s m db is_open unnulled requests fair st sys readable r in
      elim (sound.documents id) [
        | inl absent ↦ inl (get_across-absent id sys.state _ absent)
        | inr p ↦
            let b = HasBody-take_turns schedule id p.last.rev sys sound p.body in
            inr (
              make_revision x p.last.rev.num p.last.rev.uniq,
              b.prev,
              (b.deleted, (b.content, get_across-Published id sys.state _ p b)),
            )
      ]

  -- The same of a get that no turn interrupts.
  pub get-reachable :
      (id : Bytes) (st : s.State) (sys : System s)
      → ((i : Bytes) → IsReadable x s m (make_path db i) st)
      → Reach x s db requests st sys
      → (get x s db id none content_and_rev sys.state ≡ ok nothing)
        ⊎ ((num prev : Revision) × ((deleted : Bool) × ((content : JsonValue) × (get x s db id none
                    content_and_rev sys.state
                  ≡ ok (reading id num prev deleted content)))))
  unfolding get_across get read_logged take_turns
  get-reachable id st sys readable r = get_across-take_turns id st sys [] readable r
