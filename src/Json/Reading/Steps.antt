-- ===== src/Json/Reading/Steps.antt =====
-- What the handler does with one event, where it may take a value: at the end of an array, or
-- under a pending key of an object that has no such key.
use sofa_db.Prelude.{
  ℕ, suc, ◌≡◌, ◌≢◌, refl, ap, true, false, List, [], ◌∷◌, Option, none, arith, if◌then◌else◌,
}
use sofa_db.Prelude.Int.{ℤ, pos, negsuc}
use sofa_db.Text.{Bytes, bytes_eq, contains, decimal_ℤ, decimal, is_digit}
use sofa_db.Text.Order.{bytes_eq_iff, bytes_lt_total, bytes_lt_irrefl}
use sofa_db.Text.Decimal.{decimal-digits}
use sofa_db.Text.Search.{contains-digits}
use sofa_db.Failure.{ok}
use sofa_db.Json.Value.{
  JsonValue, Items, Fields, int, str, big_int, submap, sublist, no_items, item, no_fields, field,
}
use sofa_db.Json.Containers.{push_back, set_back, find_field, insert_field, set_field}
use sofa_db.Json.Bignum.{fits_int64}
use sofa_db.Json.Bignum.Normal.{normalize_int-decimal}
use sofa_db.Json.Reading.{
  Handler, Place, at_back, at_entry, Pointer, advance, advance_to, on_string, on_big_num,
  on_start_object, on_start_array, settle_in, inserted,
}

-- A place that is open for one more value.
pub data Slot : Type 0 where
  list_slot : Items → Slot
  map_slot : Bytes → Fields → Slot

abbrev pub IsOpen : Slot → Type 0
IsOpen (list_slot l) = Unit {0}
IsOpen (map_slot k m) = (k ≢ []) × (find_field k m ≡ none)

abbrev pub tip : Slot → JsonValue
tip (list_slot l) = sublist l
tip (map_slot k m) = submap m

abbrev pub pending : Slot → Bytes
pending (list_slot l) = []
pending (map_slot k m) = k

abbrev pub place_of : Slot → Place
place_of (list_slot l) = at_back
place_of (map_slot k m) = at_entry k

-- The container once the value is in it.
abbrev pub filled : Slot → JsonValue → JsonValue
filled (list_slot l) v = sublist (push_back l v)
filled (map_slot k m) v = submap (insert_field k v m)

module _ (p : Place) (below : List Pointer) (res : JsonValue) where
  -- The handler before and after one value.
  abbrev pub before : Slot → Handler
  before s = record { values = (p, tip s) ∷ below; cur_key = pending s; first = false; res = res }

  abbrev pub after : Slot → JsonValue → Handler
  after s v = record { values = (p, filled s v) ∷ below; cur_key = []; first = false; res = res }

nonempty : (k : Bytes) → k ≢ [] → bytes_eq k [] ≡ false
nonempty k h = ground (arith, bytes_eq_iff k [])

empty_key : bytes_eq [] [] ≡ true
unfolding bytes_eq
empty_key = refl

module _ (p : Place) (below : List Pointer) (res : JsonValue) (s : Slot) (open_at : IsOpen s) where
  pub advance-before :
      (v : JsonValue)
      → advance v (before p below res s) ≡ ok ((place_of s, v), after p below res s v)
  unfolding advance
  advance-before v = go s open_at
    where
      go :
          (s : Slot)
          → IsOpen s
          → advance v (before p below res s) ≡ ok ((place_of s, v), after p below res s v)
      go (list_slot l) h = rw empty_key
      go (map_slot k m) h = rw (nonempty k h.0) (rw (h.1, inserted))

  pub on_string-before :
      (t : Bytes) → on_string t (before p below res s) ≡ ok (after p below res s (str t))
  on_string-before t = go s open_at (advance-before (str t))
    where
      go :
          (s : Slot)
          → IsOpen s
          → advance (str t) (before p below res s)
            ≡ ok ((place_of s, str t), after p below res s (str t))
          → on_string t (before p below res s) ≡ ok (after p below res s (str t))
      go (list_slot l) h e = unfold on_string in rw e
      go (map_slot k m) h e = unfold on_string in rw (nonempty k h.0) (rw e)

decimal-lacks : (i : ℤ) (c : ℕ) → is_digit c ≡ false → c ≢ b'-' → contains (decimal_ℤ i) c ≡ false
unfolding decimal_ℤ contains
decimal-lacks (pos n) c h m = contains-digits (decimal n) c (decimal-digits n) h
decimal-lacks (negsuc n) c h m =
    ground (arith, contains-digits (decimal (suc n)) c (decimal-digits (suc n)) h)

-- The value that the text of an integer comes back as.
abbrev pub integer : ℤ → JsonValue
integer i = if fits_int64 i then int i else big_int (decimal_ℤ i)

module _ (strtod : Bytes → Option ℕ) where
  pub on_big_num-decimal :
      (i : ℤ) (h : Handler) → on_big_num strtod (decimal_ℤ i) h ≡ advance_to (integer i) h
  unfolding on_big_num
  on_big_num-decimal i h = rw (
    decimal-lacks i b'e' refl (omega arith),
    decimal-lacks i b'E' refl (omega arith),
    decimal-lacks i b'.' refl (omega arith),
    normalize_int-decimal i,
  )

-- Opening a container puts an empty one in the slot, and goes on inside it.
module _ (p : Place) (below : List Pointer) (res : JsonValue) (s : Slot) (open_at : IsOpen s) where
  abbrev pub inside : JsonValue → Handler
  inside v = record {
    values = (place_of s, v) ∷ ((p, filled s v) ∷ below);
    cur_key = [];
    first = false;
    res = res;
  }

  pub on_start_object-before :
      on_start_object (before p below res s) ≡ ok (inside (submap no_fields))
  unfolding on_start_object
  on_start_object-before = rw (advance-before p below res s open_at (submap no_fields))

  pub on_start_array-before : on_start_array (before p below res s) ≡ ok (inside (sublist no_items))
  unfolding on_start_array
  on_start_array-before = rw (advance-before p below res s open_at (sublist no_items))

set_back-push_back : (l : Items) (v w : JsonValue) → set_back (push_back l v) w ≡ push_back l w
unfolding set_back push_back
set_back-push_back no_items v w = refl
set_back-push_back (item u no_items) v w = refl
set_back-push_back (item u (item t l)) v w = ap (item u) (set_back-push_back (item t l) v w)

set_field-insert_field :
    (k : Bytes) (m : Fields) (v w : JsonValue)
    → find_field k m ≡ none
    → set_field k w (insert_field k v m) ≡ insert_field k w m
unfolding set_field insert_field find_field
set_field-insert_field k no_fields v w h = rw (bytes_lt_irrefl k)
set_field-insert_field k (field j u m) v w h =
    ground (
      arith,
      set_field-insert_field k m v w,
      bytes_lt_total k j,
      bytes_lt_irrefl k,
      bytes_eq_iff j k,
    )

-- Once the inner container is closed, the slot holds what it has become.
pub settle_in-filled :
    (s : Slot) (v w : JsonValue) → IsOpen s → settle_in (place_of s) w (filled s v) ≡ filled s w
unfolding settle_in
settle_in-filled (list_slot l) v w h = ap sublist (set_back-push_back l v w)
settle_in-filled (map_slot k m) v w h = ap submap (set_field-insert_field k m v w h.1)
