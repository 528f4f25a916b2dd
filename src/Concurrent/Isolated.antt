-- ===== src/Concurrent/Isolated.antt =====
-- Puts of different documents: one thread followed apart from the others.
use mathlib.Core.Path.{subst}
use sofa_db.Prelude.{
  ℕ, zero, suc, ◌-◌, ◌≤◌, ◌^◌, ◌<◌, ◌≡◌, ◌≢◌, refl, sym, ◌∙◌, ap, true, false, List, [], ◌∷◌, ◌++◌,
  ◌==◌, arith, Bool-cases, inl, inr,
}
use sofa_db.Text.{contains}
use sofa_db.Storage.{Storage, IsMap}
use sofa_db.Database.{Database, make_path}
use sofa_db.Database.Put.{put}
use sofa_db.Externals.{Externals}
use sofa_db.Externals.Laws.{IsDocumented}
use sofa_db.Concurrent.{
  Request, Phase, waiting, returned, thrown, proceed, System, turn, take_turns,
}
use sofa_db.Concurrent.Turns.{turn-same, turn-other}
use sofa_db.Concurrent.Alone.{next, outcome, proceed-put}
use sofa_db.Concurrent.Progress.{
  turns_of, remaining, has_ended, has_ended-remaining, remaining-proceed,
}
use sofa_db.Concurrent.Disjoint.{Agree, proceed-Agree, proceed-other}

module _ (x : Externals) (s : Storage) (db : Database) (r : Request) where
  -- A put that no other disturbs, by its turns.
  unfoldable pub steps : ℕ → Phase × s.State → Phase × s.State
  steps zero c = c
  steps (suc n) c = steps n (next x s db r c)

  next_still : (c : Phase × s.State) → has_ended c.0 ≡ true → next x s db r c ≡ c
  unfolding has_ended proceed
  next_still (returned res, st) h = refl
  next_still (thrown failure, st) h = refl
  next_still (_, st) h = absurd (ground (arith, h))

  steps_still : (n : ℕ) (c : Phase × s.State) → has_ended c.0 ≡ true → steps n c ≡ c
  unfolding steps
  steps_still zero c h = refl
  steps_still (suc n) c h = rw (next_still c h) (steps_still n c h)

  -- Three turns are enough.
  steps_enough :
      (n : ℕ) (c : Phase × s.State)
      → 3 ≤ n
      → steps n (waiting, c.1) ≡ next x s db r (next x s db r (next x s db r (waiting, c.1)))
  unfolding steps remaining
  steps_enough (suc (suc (suc n))) c h = steps_still n _ (
      has_ended-remaining _ omega (
        arith,
        remaining-proceed x s db r waiting c.1,
        remaining-proceed x s db r (next x s db r (waiting, c.1)).0
            (next x s db r (waiting, c.1)).1,
        remaining-proceed x s db r (next x s db r (next x s db r (waiting, c.1))).0
            (next x s db r (next x s db r (waiting, c.1))).1,
      ))
  steps_enough _ c h = absurd (omega (arith, h))

module _ (x : Externals) (d : IsDocumented x) (s : Storage) (m : IsMap s) (db : Database)
    (unnulled : contains db.name 0 ≡ false) (requests : ℕ → Request)
    (small : (j : ℕ) → (requests j).old.num < 2 ^ 31 - 1) (i : ℕ)
    (apart : (j : ℕ) → i ≢ j → (requests j).id ≢ (requests i).id) where
  abbrev own : Request
  own = requests i

  -- The thread is where it would be alone, and the storage holds the same of its document.
  record IsAlike (c : Phase × s.State) (sys : System s) : Type 0 where
    pub phase : sys.phase i ≡ c.0
    pub state : Agree x s m db (requests i).id sys.state c.1

  own_turn :
      (c : Phase × s.State) (sys : System s)
      → IsAlike c sys
      → IsAlike (next x s db (requests i) c) (turn x s db requests i sys)
  own_turn c sys h =
      let (p, a) = proceed-Agree x s m db own sys.state c.1 h.state c.0 in
      record {
        phase = turn-same x s db requests i sys ∙ rw h.phase p;
        state = unfold turn in rw h.phase a;
      }

  other_turn :
      (c : Phase × s.State) (sys : System s) (j : ℕ)
      → i ≢ j
      → IsAlike c sys
      → IsAlike c (turn x s db requests j sys)
  other_turn c sys j n h = record {
    phase = turn-other x s db requests j sys i (λ e. n (sym e)) ∙ h.phase;
    state = λ t a.
        unfold turn in
        (proceed-other x s m db d unnulled own.id (requests j) (sys.phase j) sys.state (apart j n)
            (small j) t a
          ∙ h.state t a);
  }

  take_turns-IsAlike :
      (schedule : List ℕ) (c : Phase × s.State) (sys : System s)
      → IsAlike c sys
      → IsAlike
          (steps x s db (requests i) (turns_of i schedule) c)
          (take_turns x s db requests schedule sys)
  unfolding take_turns steps turns_of
  take_turns-IsAlike [] c sys h = h
  take_turns-IsAlike (j ∷ schedule) c sys h = elim (Bool-cases (j == i)) [
    | inl same ↦ rw same (
        take_turns-IsAlike schedule (next x s db own c) (turn x s db requests j sys) (
          subst (λ k. IsAlike (next x s db own c) (turn x s db requests k sys)) {x = i} {y = j}
            (ground (arith, same)) (own_turn c sys h)))
    | inr other ↦ rw other (
        take_turns-IsAlike schedule c (turn x s db requests j sys)
          (other_turn c sys j (ground (arith, other)) h))
  ]

  -- A put whose document no other thread puts ends as if it were alone, whichever turns the
  -- others take: once it has had three turns it has returned what put returns from the storage of
  -- the start, or thrown what put throws, and the storage holds of its document what put leaves.
  -- No name holds a NUL, the storage does not fail, and the numbers of the old revisions are below
  -- 2 ^ 31 - 1.
  pub take_turns-isolated :
      (room : ℕ) (schedule : List ℕ) (st : s.State)
      → 3 ≤ turns_of i schedule
      → let after =
          take_turns x s db requests schedule (record { state = st; phase = λ j. waiting }) in
        (st' : s.State) × (outcome (after.phase i, st')
          ≡ put x s db room (requests i).id (requests i).old (requests i).content false st)
        × Agree x s m db (requests i).id after.state st'
  take_turns-isolated room schedule st h =
      let alike =
        take_turns-IsAlike schedule (waiting, st) (record { state = st; phase = λ j. waiting })
          (record { phase = refl; state = λ t a. refl }) in
      let three = steps_enough x s db own (turns_of i schedule) (waiting, st) h in
      let c = next x s db own (next x s db own (next x s db own (waiting, st))) in
      (
        c.1,
        ap (λ p. outcome (p, c.1)) (alike.phase ∙ ap (λ (e : Phase × s.State). e.0) three)
            ∙ proceed-put x s db own room st,
        λ t a.
            alike.state t a
            ∙ ap (λ (e : Phase × s.State). m.lookup (make_path db own.id ++ t) e.1) three,
      )
