-- ===== src/Json/Plain.antt =====
-- The values that come back from their text, and what they come back as.
use sofa_db.Prelude.{◌≡◌, ◌≢◌, true, [], if◌then◌else◌}
use sofa_db.Prelude.Int.{ℤ}
use sofa_db.Text.{decimal_ℤ, strtol}
use sofa_db.Json.Value.{
  JsonValue, Items, Fields, int, double, big_int, submap, sublist, graft, no_items, item, no_fields,
  field,
}
use sofa_db.Json.Containers.Laws.{IsSorted}
use sofa_db.Json.Bignum.{fits_int64}

-- No double stands in the value, its ints are those of an int64_t, its big integers are decimal
-- texts, its maps are in order, and no key is empty.
abbrev mutual
  pub IsPlain : JsonValue → Type 0
  IsPlain (int i) = fits_int64 i ≡ true
  IsPlain (double d) = ⊥
  IsPlain (big_int s) = (i : ℤ) × (s ≡ decimal_ℤ i)
  IsPlain (submap m) = IsSorted m × FieldsPlain m
  IsPlain (sublist l) = ItemsPlain l
  IsPlain (graft g) = IsPlain g
  IsPlain _ = Unit {0}

  pub ItemsPlain : Items → Type 0
  ItemsPlain no_items = Unit {0}
  ItemsPlain (item v l) = IsPlain v × ItemsPlain l

  pub FieldsPlain : Fields → Type 0
  FieldsPlain no_fields = Unit {0}
  FieldsPlain (field k v m) = (k ≢ []) × IsPlain v × FieldsPlain m

-- The root of a text is an object or an array.
abbrev pub IsRooted : JsonValue → Type 0
IsRooted (submap m) = Unit {0}
IsRooted (sublist l) = Unit {0}
IsRooted (graft g) = IsRooted g
IsRooted _ = ⊥

-- The value without its grafts, and with the big integers that fit as ints.
unfoldable mutual
  pub settled : JsonValue → JsonValue
  settled (big_int s) = if fits_int64 (strtol s) then int (strtol s) else big_int s
  settled (submap m) = submap (settled_fields m)
  settled (sublist l) = sublist (settled_items l)
  settled (graft g) = settled g
  settled v = v

  pub settled_items : Items → Items
  settled_items no_items = no_items
  settled_items (item v l) = item (settled v) (settled_items l)

  pub settled_fields : Fields → Fields
  settled_fields no_fields = no_fields
  settled_fields (field k v m) = field k (settled v) (settled_fields m)
