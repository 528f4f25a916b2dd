-- ===== src/Concurrent/Turns.antt =====
-- What one turn changes.
use sofa_db.Prelude.{ℕ, ◌≡◌, ◌≢◌, true, false, ◌==◌, refl, arith}
use sofa_db.Storage.{Storage}
use sofa_db.Database.{Database}
use sofa_db.Externals.{Externals}
use sofa_db.Concurrent.{Request, proceed, System, turn}

module _ (x : Externals) (s : Storage) (db : Database) (requests : ℕ → Request) (i : ℕ)
    (sys : System s) where
  -- The thread that has the turn makes a step.
  pub turn-same :
      (turn x s db requests i sys).phase i ≡ (proceed x s db (requests i) (sys.phase i) sys.state).0
  unfolding turn
  turn-same = let same : (i == i) ≡ true = ground arith in rw same refl

  -- The others stay where they are.
  pub turn-other : (j : ℕ) → i ≢ j → (turn x s db requests i sys).phase j ≡ sys.phase j
  unfolding turn
  turn-other j n = let other : (i == j) ≡ false = ground (arith, n) in rw other refl
