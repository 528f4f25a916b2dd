-- ===== src/Json/Compare/Equal.antt =====
-- operator== of json_value (libsofadb/native_json.cpp) on a value and itself.
use sofa_db.Prelude.{◌≡◌, refl, ◌∙◌, true, false, arith}
use sofa_db.Text.Order.{bytes_eq_refl}
use sofa_db.Failure.{ok}
use sofa_db.Json.Value.{
  JsonValue, Items, Fields, nil, bool, int, double, str, big_int, submap, sublist, graft, no_items,
  item, no_fields, field, double_eq, is_nan,
}
use sofa_db.Json.Compare.{against, operate, json_eq, items_eq, fields_eq}

-- No double in a value is a NaN.
abbrev mutual
  pub IsOrdered : JsonValue → Type 0
  IsOrdered (double d) = is_nan d ≡ false
  IsOrdered (submap m) = FieldsOrdered m
  IsOrdered (sublist l) = ItemsOrdered l
  IsOrdered (graft g) = IsOrdered g
  IsOrdered _ = Unit {0}

  pub ItemsOrdered : Items → Type 0
  ItemsOrdered no_items = Unit {0}
  ItemsOrdered (item v l) = IsOrdered v × ItemsOrdered l

  pub FieldsOrdered : Fields → Type 0
  FieldsOrdered no_fields = Unit {0}
  FieldsOrdered (field k v m) = IsOrdered v × FieldsOrdered m

-- A graft on the right is looked through.
pub json_eq-graft : (l g : JsonValue) → json_eq l (graft g) ≡ json_eq l g
unfolding json_eq against
json_eq-graft nil g = refl
json_eq-graft (graft l) g = json_eq-graft l g
json_eq-graft _ g = refl

mutual
  unfolding json_eq against operate double_eq

  json_eq_self : (v : JsonValue) → IsOrdered v → json_eq v v ≡ ok true
  json_eq_self nil h = refl
  json_eq_self (bool true) h = refl
  json_eq_self (bool false) h = refl
  json_eq_self (int i) h = ground arith
  json_eq_self (double d) h = ground arith
  json_eq_self (str s) h = rw (bytes_eq_refl s)
  json_eq_self (big_int s) h = rw (bytes_eq_refl s)
  json_eq_self (submap m) h = ground (arith, fields_eq_self m h)
  json_eq_self (sublist l) h = ground (arith, items_eq_self l h)
  json_eq_self (graft g) h = json_eq-graft g g ∙ json_eq_self g h

  items_eq_self : (l : Items) → ItemsOrdered l → items_eq l l ≡ ok true
  items_eq_self no_items h = refl
  items_eq_self (item v l) h = rw (json_eq_self v h.0) (items_eq_self l h.1)

  fields_eq_self : (m : Fields) → FieldsOrdered m → fields_eq m m ≡ ok true
  fields_eq_self no_fields h = refl
  fields_eq_self (field k v m) h =
      rw (bytes_eq_refl k) (rw (json_eq_self v h.0) (fields_eq_self m h.1))

-- Every value that holds no NaN is equal to itself, whatever grafts and containers it is made of.
pub json_eq_refl : (v : JsonValue) → IsOrdered v → json_eq v v ≡ ok true
json_eq_refl v h = json_eq_self v h
