-- ===== src/Json/Compare.antt =====
-- do_operation with std::equal_to and std::less: operator== and operator< of json_value
-- (libsofadb/native_json.cpp).
pub mod Equal
pub mod Order
use sofa_db.Prelude.{ℕ, suc, Bool, true, false, not, ◌&&◌, ltb, ◌==◌, if◌then◌else◌}
use sofa_db.Prelude.Int.{ℤ, ltb_ℤ, eqb_ℤ}
use sofa_db.Text.{Bytes, bytes_eq, bytes_lt}
use sofa_db.Failure.{Result, ok, ◌>>=◌}
use sofa_db.Json.Value.{
  JsonDisc, disc_value, JsonValue, Items, Fields, nil, bool, int, double, str, big_int, submap,
  sublist, graft, no_items, item, no_fields, field, type_of, double_eq, double_lt,
}
use sofa_db.Json.Access.{get_int}
use sofa_db.Json.Bignum.{bignum_lt, normalize_int}

-- Operator<T> at each type that holds no other value.
pub record Operator : Type 0 where
  pub on_disc : JsonDisc → JsonDisc → Bool
  pub on_nil : Bool
  pub on_bool : Bool → Bool → Bool
  pub on_int : ℤ → ℤ → Bool
  pub on_double : ℕ → ℕ → Bool
  pub on_str : Bytes → Bytes → Bool
  pub on_big_int : Bytes → Bytes → Result Bool

abbrev bool_eq : Bool → Bool → Bool
bool_eq true b = b
bool_eq false b = not b

abbrev bool_lt : Bool → Bool → Bool
bool_lt a b = not a && b

-- std::equal_to
abbrev pub equal_to : Operator
equal_to = record {
  on_disc = λ a b. disc_value a == disc_value b;
  on_nil = true;
  on_bool = bool_eq;
  on_int = eqb_ℤ;
  on_double = double_eq;
  on_str = bytes_eq;
  on_big_int = λ a b. ok (bytes_eq a b);
}

-- std::less
abbrev pub less : Operator
less = record {
  on_disc = λ a b. ltb (disc_value a) (disc_value b);
  on_nil = false;
  on_bool = bool_lt;
  on_int = ltb_ℤ;
  on_double = double_lt;
  on_str = bytes_lt;
  on_big_int = bignum_lt;
}

-- std::less with its arguments exchanged.
abbrev pub greater : Operator
greater = record {
  on_disc = λ a b. ltb (disc_value b) (disc_value a);
  on_nil = false;
  on_bool = λ a b. bool_lt b a;
  on_int = λ a b. ltb_ℤ b a;
  on_double = λ a b. double_lt b a;
  on_str = λ a b. bytes_lt b a;
  on_big_int = λ a b. bignum_lt b a;
}

-- The first test of do_operation: an int against a big integer. After normalize_int the types may
-- still differ.
unfoldable pub mixed_integers : Operator → JsonValue → JsonValue → Result Bool
unfolding type_of get_int disc_value
mixed_integers op l r = do
  l1 ← normalize_int l
  l2 ← normalize_int r
  if not (disc_value (type_of l1) == disc_value (type_of l2))
      then ok (op.on_disc (type_of l1) (type_of l2))
      else do i ← get_int l1; j ← get_int l2; ok (op.on_int i j)

-- The rest of do_operation for two values of which neither is a graft. What Operator does at
-- submap_t and sublist_t is given for the left value.
unfoldable pub operate :
    Operator → (Fields → Result Bool) → (Items → Result Bool) → JsonValue → JsonValue → Result Bool
unfolding mixed_integers type_of
operate op on_map on_list (big_int s) (int i) = mixed_integers op (big_int s) (int i)
operate op on_map on_list (int i) (big_int s) = mixed_integers op (int i) (big_int s)
operate op on_map on_list nil nil = ok op.on_nil
operate op on_map on_list (bool a) (bool b) = ok (op.on_bool a b)
operate op on_map on_list (int i) (int j) = ok (op.on_int i j)
operate op on_map on_list (double a) (double b) = ok (op.on_double a b)
operate op on_map on_list (str s) (str t) = ok (op.on_str s t)
operate op on_map on_list (big_int s) (big_int t) = op.on_big_int s t
operate op on_map on_list (submap m) (submap n) = on_map n
operate op on_map on_list (sublist l) (sublist r) = on_list r
operate op on_map on_list l r = ok (op.on_disc (type_of l) (type_of r))

-- do_operation for a left value that is no graft: a graft on the right is looked through.
unfoldable pub against :
    Operator → (Fields → Result Bool) → (Items → Result Bool) → JsonValue → JsonValue → Result Bool
against op on_map on_list l (graft g) = against op on_map on_list l g
against op on_map on_list l nil = operate op on_map on_list l nil
against op on_map on_list l (bool b) = operate op on_map on_list l (bool b)
against op on_map on_list l (int i) = operate op on_map on_list l (int i)
against op on_map on_list l (double d) = operate op on_map on_list l (double d)
against op on_map on_list l (str s) = operate op on_map on_list l (str s)
against op on_map on_list l (big_int s) = operate op on_map on_list l (big_int s)
against op on_map on_list l (submap m) = operate op on_map on_list l (submap m)
against op on_map on_list l (sublist xs) = operate op on_map on_list l (sublist xs)

-- Operator at a container that the left value is not.
abbrev pub no_container {ℓ} : {A : Type ℓ} → A → Result Bool
no_container x = ok false

-- size()
unfoldable pub size_items : Items → ℕ
size_items no_items = 0
size_items (item v l) = suc (size_items l)

unfoldable pub size_fields : Fields → ℕ
size_fields no_fields = 0
size_fields (field k v m) = suc (size_fields m)

-- operator==. The containers are compared by their sizes, and then entry by entry up to the first
-- difference; a pair is equal if its key and its value are.
unfoldable mutual
  pub json_eq : JsonValue → JsonValue → Result Bool
  json_eq (graft g) r = json_eq g r
  json_eq (submap m) r =
      against equal_to (λ n. if size_fields m == size_fields n then fields_eq m n else ok false)
        no_container (submap m) r
  json_eq (sublist l) r =
      against equal_to no_container
        (λ s. if size_items l == size_items s then items_eq l s else ok false) (sublist l) r
  json_eq nil r = against equal_to no_container no_container nil r
  json_eq (bool b) r = against equal_to no_container no_container (bool b) r
  json_eq (int i) r = against equal_to no_container no_container (int i) r
  json_eq (double d) r = against equal_to no_container no_container (double d) r
  json_eq (str s) r = against equal_to no_container no_container (str s) r
  json_eq (big_int s) r = against equal_to no_container no_container (big_int s) r

  pub items_eq : Items → Items → Result Bool
  items_eq no_items s = ok true
  items_eq (item v l) no_items = ok true
  items_eq (item v l) (item w s) = json_eq v w >>= λ same. if same then items_eq l s else ok false

  pub fields_eq : Fields → Fields → Result Bool
  fields_eq no_fields n = ok true
  fields_eq (field k v m) no_fields = ok true
  fields_eq (field k v m) (field j w n) =
      if bytes_eq k j
      then (json_eq v w >>= λ same. if same then fields_eq m n else ok false)
      else ok false

-- operator< on pairs; the values are compared only if neither key is less.
unfoldable pub pair_lt : Bytes → Bytes → (Unit {0} → Result Bool) → Result Bool
pair_lt k j second = if bytes_lt k j then ok true else if bytes_lt j k then ok false else second tt

-- operator<, and with its arguments exchanged operator>. The containers are compared by
-- std::lexicographical_compare, which asks at each entry for both orders; a pair is less if its
-- key is, or if the keys are the same and its value is.
unfoldable mutual
  pub json_lt : JsonValue → JsonValue → Result Bool
  json_lt (graft g) r = json_lt g r
  json_lt (submap m) r = against less (λ n. fields_lt m n) no_container (submap m) r
  json_lt (sublist l) r = against less no_container (λ s. items_lt l s) (sublist l) r
  json_lt nil r = against less no_container no_container nil r
  json_lt (bool b) r = against less no_container no_container (bool b) r
  json_lt (int i) r = against less no_container no_container (int i) r
  json_lt (double d) r = against less no_container no_container (double d) r
  json_lt (str s) r = against less no_container no_container (str s) r
  json_lt (big_int s) r = against less no_container no_container (big_int s) r

  pub items_lt : Items → Items → Result Bool
  items_lt no_items no_items = ok false
  items_lt no_items (item w s) = ok true
  items_lt (item v l) no_items = ok false
  items_lt (item v l) (item w s) = do
    below ← json_lt v w
    if below then ok true else do above ← json_gt v w; if above then ok false else items_lt l s

  pub fields_lt : Fields → Fields → Result Bool
  fields_lt no_fields no_fields = ok false
  fields_lt no_fields (field j w n) = ok true
  fields_lt (field k v m) no_fields = ok false
  fields_lt (field k v m) (field j w n) = do
    below ← pair_lt k j (λ _. json_lt v w)
    if below
        then ok true
        else do above ← pair_lt j k (λ _. json_gt v w); if above then ok false else fields_lt m n

  -- r < l, read along l.
  pub json_gt : JsonValue → JsonValue → Result Bool
  json_gt (graft g) r = json_gt g r
  json_gt (submap m) r = against greater (λ n. fields_gt m n) no_container (submap m) r
  json_gt (sublist l) r = against greater no_container (λ s. items_gt l s) (sublist l) r
  json_gt nil r = against greater no_container no_container nil r
  json_gt (bool b) r = against greater no_container no_container (bool b) r
  json_gt (int i) r = against greater no_container no_container (int i) r
  json_gt (double d) r = against greater no_container no_container (double d) r
  json_gt (str s) r = against greater no_container no_container (str s) r
  json_gt (big_int s) r = against greater no_container no_container (big_int s) r

  pub items_gt : Items → Items → Result Bool
  items_gt no_items no_items = ok false
  items_gt (item v l) no_items = ok true
  items_gt no_items (item w s) = ok false
  items_gt (item v l) (item w s) = do
    below ← json_gt v w
    if below then ok true else do above ← json_lt v w; if above then ok false else items_gt l s

  pub fields_gt : Fields → Fields → Result Bool
  fields_gt no_fields no_fields = ok false
  fields_gt (field k v m) no_fields = ok true
  fields_gt no_fields (field j w n) = ok false
  fields_gt (field k v m) (field j w n) = do
    below ← pair_lt j k (λ _. json_gt v w)
    if below
        then ok true
        else do above ← pair_lt k j (λ _. json_lt v w); if above then ok false else fields_gt m n
