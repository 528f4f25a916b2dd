-- ===== src/Concurrent/Readable.antt =====
-- The invariant of puts that are under way, in every state that they can come to.
use sofa_db.Prelude.{ℕ, ◌≤◌, ◌≡◌, refl, Bool, true, false, List, [], ◌∷◌, some, none, arith}
use sofa_db.Text.{Bytes, contains}
use sofa_db.Json.Value.{JsonValue}
use sofa_db.Json.Plain.{settled}
use sofa_db.Revision.{Revision}
use sofa_db.Storage.{Storage, IsMap}
use sofa_db.Database.{Database, PutResult, make_path}
use sofa_db.Database.Get.{GetResult}
use sofa_db.Database.Get.Reads.{info_of}
use sofa_db.Externals.{Externals}
use sofa_db.Externals.Laws.{IsDocumented}
use sofa_db.Concurrent.{
  Request, Phase, waiting, returned, thrown, proceed, System, set_phase_all, turn, take_turns,
  Reach, begun, later,
}
use sofa_db.Concurrent.Progress.{turns_of, has_ended, take_turns-ends}
use sofa_db.Concurrent.Sound.{IsFair, HasBody, IsReadable, PhaseSound, IsSound}
use sofa_db.Concurrent.Steps.{proceed-Kept}

-- What a get that names no revision returns of a document that is there.
abbrev pub reading : Bytes → Revision → Revision → Bool → JsonValue → GetResult
reading id num prev deleted content = record {
  found = true;
  content = some (settled content);
  rev = some (info_of id num prev deleted);
  rev_log = none;
}

-- What it returns of one that is not.
abbrev pub nothing : GetResult
nothing = record { found = false; content = none; rev = none; rev_log = none }

module _ (x : Externals) (d : IsDocumented x) (s : Storage) (m : IsMap s) (db : Database)
    (is_open : db.closed ≡ false) (unnulled : contains db.name 0 ≡ false) where
  PhaseSound-bodies :
      (id : Bytes) (p : Phase) (st st' : s.State)
      → ((rev : Revision)
          → HasBody x s m (make_path db id) rev st
          → HasBody x s m (make_path db id) rev st')
      → PhaseSound x s m (make_path db id) p st
      → PhaseSound x s m (make_path db id) p st'
  PhaseSound-bodies id (Phase.formatted rev log) st st' keep (v, (e, (f, (t, (g, b))))) =
      (v, (e, (f, (t, (g, keep rev b)))))
  PhaseSound-bodies id (Phase.checked has_prev log) st st' keep h = h
  PhaseSound-bodies id waiting st st' keep h = tt
  PhaseSound-bodies id (returned res) st st' keep h = tt
  PhaseSound-bodies id (thrown failure) st st' keep h = h

  module _ (requests : ℕ → Request) (fair : (i : ℕ) → IsFair (requests i)) where
    pub turn-IsSound :
        (i : ℕ) (sys : System s)
        → IsSound x s m db requests sys
        → IsSound x s m db requests (turn x s db requests i sys)
    unfolding turn
    turn-IsSound i sys sound =
        let kept =
          proceed-Kept x d s m db is_open unnulled (requests i) (fair i) sys.state (sys.phase i)
            (sound.documents (requests i).id) (sound.threads i) in
        record {
          documents = λ id. kept.documents id (sound.documents id);
          threads =
              set_phase_all
                (λ j p.
                  PhaseSound x s m (make_path db (requests j).id) p
                    (proceed x s db (requests i) (sys.phase i) sys.state).1)
                sys.phase i (proceed x s db (requests i) (sys.phase i) sys.state).0 kept.thread
                (λ j.
                  PhaseSound-bodies (requests j).id (sys.phase j) sys.state _
                    (kept.bodies (requests j).id) (sound.threads j));
        }

    pub Reach-IsSound :
        (st : s.State) (sys : System s)
        → ((id : Bytes) → IsReadable x s m (make_path db id) st)
        → Reach x s db requests st sys
        → IsSound x s m db requests sys
    Reach-IsSound st _ readable begun = record { documents = readable; threads = λ i. tt }
    Reach-IsSound st _ readable (later {sys = sys} i r) =
        turn-IsSound i sys (Reach-IsSound st sys readable r)

    take_turns-IsSound :
        (schedule : List ℕ) (sys : System s)
        → IsSound x s m db requests sys
        → IsSound x s m db requests (take_turns x s db requests schedule sys)
    unfolding take_turns
    take_turns-IsSound [] sys h = h
    take_turns-IsSound (i ∷ schedule) sys h =
        take_turns-IsSound schedule (turn x s db requests i sys) (turn-IsSound i sys h)

    ended-returned :
        (path : Bytes) (p : Phase) (st : s.State)
        → has_ended p ≡ true
        → PhaseSound x s m path p st
        → (res : PutResult) × (p ≡ returned res)
    unfolding has_ended
    ended-returned path (returned res) st e h = (res, refl)
    ended-returned path (thrown failure) st e h = absurd h
    ended-returned path _ st e h = absurd (ground (arith, e))

    -- Once a thread has had three turns since the start its put has returned, and not thrown,
    -- whichever turns the other threads take. The database is open and its name holds no NUL,
    -- and the storage does not fail. Each document has no log at first, or a log as put writes
    -- it, with numbers that fit a uint32_t, and the body of the revision at its top: the text of
    -- that revision holds no '@', the revision before it is read back from its text, and the
    -- content of the body holds no double and no empty key, its ints fit an int64_t, its maps
    -- are in order and its big integers are decimal texts. Of each request the number of the old
    -- revision is below 2 ^ 31 - 1, the old revision is read back from its text, and the content
    -- is such a content too.
    pub take_turns-returns :
        (i : ℕ) (schedule : List ℕ) (st : s.State)
        → ((id : Bytes) → IsReadable x s m (make_path db id) st)
        → 3 ≤ turns_of i schedule
        → (res : PutResult) × ((take_turns x s db requests schedule
                (record { state = st; phase = λ j. waiting })).phase
              i
            ≡ returned res)
    take_turns-returns i schedule st readable h =
        ended-returned (make_path db (requests i).id) _ _
          (take_turns-ends x s db requests i schedule _ h)
          ((take_turns-IsSound schedule _
              (record { documents = readable; threads = λ j. tt })).threads
            i)
