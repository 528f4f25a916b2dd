-- ===== src/Utils/VectorMap/Laws.antt =====
-- What a vector_map holds after an insertion and after operator[].
use sofa_db.Prelude.{◌≡◌, refl, ◌↔◌, Bool, true, List, [], ◌∷◌, if◌then◌else◌, arith}
use sofa_db.Failure.{ok}
use sofa_db.Utils.VectorMap.{insert, at, index}

module _ {ℓ κ} {K : Type ℓ} {V : Type κ} (eq : K → K → Bool)
    (decides : (a b : K) → (eq a b ≡ true) ↔ (a ≡ b)) where
  -- After an insertion `at` finds the value under its key, and under every other key what it found
  -- before, or throws as before.
  pub at-insert :
      (k i : K) (v : V) (m : List (K × V))
      → at eq i (insert eq (k, v) m) ≡ (if eq k i then ok v else at eq i m)
  unfolding at insert
  at-insert k i v [] = refl
  at-insert k i v ((j, w) ∷ m) =
      ground (arith, at-insert k i v m, decides j k, decides j i, decides k i)

  -- operator[] gives what `at` finds, or the fresh value, which it then has put under the key.
  pub at-index :
      (fresh : V) (k : K) (m : List (K × V))
      → at eq k (index eq fresh k m).1 ≡ ok (index eq fresh k m).0
  unfolding at index
  at-index fresh k [] = rw ((decides k k).1 refl) refl
  at-index fresh k ((j, w) ∷ m) = ground (arith, at-index fresh k m)
