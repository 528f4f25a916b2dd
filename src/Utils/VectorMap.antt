-- ===== src/Utils/VectorMap.antt =====
-- utils::vector_map (libsofadb/vector_map.h), a map as a vector of pairs in the order of the
-- first insertions. Keys are compared by `eq`, and `fresh` is the value V().
pub mod Laws
use sofa_db.Prelude.{Bool, true, false, List, [], ◌∷◌, ◌++◌, Option, none, some, if◌then◌else◌}
use sofa_db.Failure.{Result, ok, fail, out_of_range}

module _ {ℓ κ} {K : Type ℓ} {V : Type κ} (eq : K → K → Bool) where
  -- insert: the value of a key that is there is replaced, a new pair goes to the end.
  unfoldable pub insert : K × V → List (K × V) → List (K × V)
  insert pair [] = pair ∷ []
  insert pair ((key, v) ∷ values) =
      let rest = insert pair values in
      if eq key pair.0 then (key, pair.1) ∷ values else (key, v) ∷ rest

  -- at
  unfoldable pub at : K → List (K × V) → Result V
  at key [] = fail out_of_range
  at key ((k, v) ∷ values) = let rest = at key values in if eq k key then ok v else rest

  -- operator[]: the value that is found or made, and the map.
  unfoldable pub index : V → K → List (K × V) → V × List (K × V)
  index fresh key [] = (fresh, (key, fresh) ∷ [])
  index fresh key ((k, v) ∷ values) =
      let rest = index fresh key values in
      if eq k key then (v, (k, v) ∷ values) else (rest.0, (k, v) ∷ rest.1)
