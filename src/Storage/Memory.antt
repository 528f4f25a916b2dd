-- ===== src/Storage/Memory.antt =====
-- A storage in memory, for the tests.
use sofa_db.Prelude.{List, [], ◌∷◌, Option, none, some, refl, if◌then◌else◌}
use sofa_db.Text.{Bytes, bytes_eq}
use sofa_db.Failure.{ok}
use sofa_db.Storage.{Storage, IsMap}

unfoldable pub lookup_in : Bytes → List (Bytes × Bytes) → Option Bytes
lookup_in k [] = none
lookup_in k ((j, v) ∷ l) = if bytes_eq j k then some v else lookup_in k l

abbrev pub memory : Storage
memory = record {
  State = List (Bytes × Bytes);
  try_get = λ k st. ok (lookup_in k st);
  put = λ k v st. ok ((k, v) ∷ st);
}

abbrev pub memory_map : IsMap memory
unfolding lookup_in
memory_map = record {
  lookup = lookup_in;
  store = λ k v st. (k, v) ∷ st;
  gets = λ k st. refl;
  puts = λ k v st. refl;
  lookup-store = λ k j v st. refl;
}
