-- ===== src/Json/Containers/Laws.antt =====
-- Writes and lookups in a map (submap_t of libsofadb/native_json.h).
use sofa_db.Prelude.{◌≡◌, refl, true, some, arith, if◌then◌else◌}
use sofa_db.Text.{Bytes, bytes_lt, bytes_eq}
use sofa_db.Text.Order.{bytes_eq_iff, bytes_lt_total, bytes_lt_trans}
use sofa_db.Json.Value.{JsonValue, Fields, no_fields, field}
use sofa_db.Json.Containers.{find_field, set_field}

-- Every key of a map lies above a key.
abbrev pub AllAbove : Bytes → Fields → Type 0
AllAbove k no_fields = Unit {0}
AllAbove k (field j v m) = (bytes_lt k j ≡ true) × AllAbove k m

-- The entries stand in the order of their keys, and no key stands twice.
abbrev pub IsSorted : Fields → Type 0
IsSorted no_fields = Unit {0}
IsSorted (field k v m) = AllAbove k m × IsSorted m

AllAbove-trans : (i k : Bytes) (m : Fields) → bytes_lt i k ≡ true → AllAbove k m → AllAbove i m
AllAbove-trans i k no_fields h a = tt
AllAbove-trans i k (field j v m) h a = (bytes_lt_trans i k j h a.0, AllAbove-trans i k m h a.1)

set_field-AllAbove :
    (i k : Bytes) (v : JsonValue) (m : Fields)
    → bytes_lt i k ≡ true
    → AllAbove i m
    → AllAbove i (set_field k v m)
unfolding set_field
set_field-AllAbove i k v no_fields h a = (h, tt)
set_field-AllAbove i k v (field j w m) h a = ground (arith, set_field-AllAbove i k v m h a.1)

-- A write keeps a map in order.
pub set_field-IsSorted :
    (k : Bytes) (v : JsonValue) (m : Fields) → IsSorted m → IsSorted (set_field k v m)
unfolding set_field
set_field-IsSorted k v no_fields s = (tt, tt)
set_field-IsSorted k v (field j w m) s =
    ground (arith, AllAbove-trans k j m, set_field-AllAbove j k v m, set_field-IsSorted k v m s.1)

-- A lookup sees the value that was written last under its key, and the other keys as before.
pub find_field-set_field :
    (k i : Bytes) (v : JsonValue) (m : Fields)
    → find_field i (set_field k v m) ≡ (if bytes_eq k i then some v else find_field i m)
unfolding find_field set_field
find_field-set_field k i v no_fields = refl
find_field-set_field k i v (field j w m) =
    ground
      (arith, find_field-set_field k i v m, bytes_eq_iff k i, bytes_eq_iff j i, bytes_lt_total k j)
