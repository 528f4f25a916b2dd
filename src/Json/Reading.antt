-- ===== src/Json/Reading.antt =====
-- rapid_read_handler, which builds a value from a reader's events (libsofadb/native_json.cpp).
pub mod Steps
pub mod Order
pub mod Rebuild
use sofa_db.Prelude.{
  ℕ, Bool, true, false, ◌||◌, List, [], ◌∷◌, Option, none, some, ◌==◌, if◌then◌else◌,
}
use sofa_db.Text.{Bytes, bytes_eq, contains}
use sofa_db.Failure.{Result, ok, fail, bad_exception, undefined, ◌>>=◌}
use sofa_db.Json.Value.{
  JsonValue, Items, Fields, nil, bool, double, str, big_int, submap, sublist, no_items, no_fields,
}
use sofa_db.Json.Access.{get_submap, get_sublist, as_submap, as_sublist}
use sofa_db.Json.Containers.{push_back, set_back, find_field, insert_field, set_field}
use sofa_db.Json.Bignum.{normalize_int}
use sofa_db.Json.Events.{
  ReadEvent, null, start_object, end_object, start_array, end_array, big_num, string,
}

-- Where a value stands in the one that holds it.
pub data Place : Type 0 where
  at_root at_back : Place
  at_entry : Bytes → Place

-- A pointer of `values_`, with what it points at. The copy of it inside the value below is
-- brought up to date when the pointer is popped.
abbrev pub Pointer : Type 0
Pointer = Place × JsonValue

-- The handler and the value `res` that parse_from_stream has it fill. `values` has the innermost
-- pointer first.
pub record Handler : Type 0 where
  pub values : List Pointer
  pub cur_key : Bytes
  pub first : Bool
  pub res : JsonValue

-- The handler after `values_.push_back(&res)`.
abbrev pub start : Handler
start = record { values = (at_root, nil) ∷ []; cur_key = []; first = true; res = nil }

-- std::map::insert gives the element of the key, the one that was there before if there is one.
abbrev pub inserted : Bytes → JsonValue → Fields → JsonValue
inserted k v m = elim (find_field k m) [ none ↦ v | some w ↦ w ]

-- advance, where the pending key is not empty.
unfoldable pub advance_entry : Bytes → JsonValue → Place → JsonValue → Result (Pointer × JsonValue)
unfolding get_submap insert_field find_field
advance_entry key v place tip = do
  m ← get_submap tip
  ok ((at_entry key, inserted key v m), submap (insert_field key v m))

-- advance, where there is no pending key.
unfoldable pub advance_item : JsonValue → JsonValue → Result (Pointer × JsonValue)
unfolding get_sublist push_back
advance_item v tip = do l ← get_sublist tip; ok ((at_back, v), sublist (push_back l v))

-- advance: puts a value at the tip, and gives a pointer to it. `values_.back()` of no value is
-- undefined.
unfoldable pub advance : JsonValue → Handler → Result (Pointer × Handler)
unfolding advance_entry advance_item
advance v h = elim h.values [
  | [] ↦ fail undefined
  | (place, tip) ∷ below ↦
      (if bytes_eq h.cur_key [] then advance_item v tip else advance_entry h.cur_key v place tip)
      >>= λ (p, tip'). ok (p, record h { values = (place, tip') ∷ below; cur_key = [] })
]

abbrev pub advance_to : JsonValue → Handler → Result Handler
advance_to v h = advance v h >>= λ (p, h'). ok h'

-- String
unfoldable pub on_string : Bytes → Handler → Result Handler
on_string s h = elim h.values [
  | [] ↦ fail undefined
  | (place, submap m) ∷ below ↦
      if bytes_eq h.cur_key [] then ok (record h { cur_key = s }) else advance_to (str s) h
  | (place, v) ∷ below ↦ advance_to (str s) h
]

-- BigNum: `strtod` stands for sscanf's "%lf", and has no value for the end of the text.
unfoldable pub on_big_num : (Bytes → Option ℕ) → Bytes → Handler → Result Handler
on_big_num strtod digits h =
    if contains digits b'e' || (contains digits b'E' || contains digits b'.')
    then elim (strtod digits) [ none ↦ fail bad_exception | some d ↦ advance_to (double d) h ]
    else normalize_int (big_int digits) >>= λ v. advance_to v h

-- The first container is the result itself; any other one is put at the tip, and pointed at.
unfoldable pub open_first : (JsonValue → Result JsonValue) → Handler → Result Handler
open_first make h = elim h.values [
  | [] ↦ fail undefined
  | (place, v) ∷ below ↦
      make v >>= λ w. ok (record h { first = false; values = (place, w) ∷ below })
]

unfoldable pub open_inner : JsonValue → Handler → Result Handler
open_inner v h = advance v h >>= λ (p, h'). ok (record h' { values = p ∷ h'.values })

-- StartObject and StartArray
unfoldable pub on_start_object : Handler → Result Handler
unfolding open_first open_inner as_submap
on_start_object h =
    if h.first
    then open_first (λ v. as_submap v >>= λ m. ok (submap m)) h
    else open_inner (submap no_fields) h

unfoldable pub on_start_array : Handler → Result Handler
unfolding open_first open_inner as_sublist
on_start_array h =
    if h.first
    then open_first (λ v. as_sublist v >>= λ l. ok (sublist l)) h
    else open_inner (sublist no_items) h

-- What a pointer saw of the value below it, once the pointer is gone.
unfoldable pub settle_in : Place → JsonValue → JsonValue → JsonValue
settle_in (at_entry k) v (submap m) = submap (set_field k v m)
settle_in at_back v (sublist l) = sublist (set_back l v)
settle_in place v w = w

-- values_.pop_back(), of EndObject and EndArray.
unfoldable pub on_end : Handler → Result Handler
unfolding settle_in
on_end h = elim h.values [
  | [] ↦ fail undefined
  | (place, v) ∷ [] ↦ ok (record h { values = []; res = v })
  | (place, v) ∷ ((place', w) ∷ below) ↦
      ok (record h { values = (place', settle_in place v w) ∷ below })
]

unfoldable pub on_event : (Bytes → Option ℕ) → ReadEvent → Handler → Result Handler
on_event strtod null h = advance_to nil h
on_event strtod (ReadEvent.bool b) h = advance_to (bool b) h
on_event strtod (big_num s) h = on_big_num strtod s h
on_event strtod (string s) h = on_string s h
on_event strtod start_object h = on_start_object h
on_event strtod end_object h = on_end h
on_event strtod start_array h = on_start_array h
on_event strtod end_array h = on_end h

-- The calls of one reader, in order.
unfoldable pub on_events : (Bytes → Option ℕ) → List ReadEvent → Handler → Result Handler
on_events strtod [] h = ok h
on_events strtod (e ∷ es) h = on_event strtod e h >>= λ h'. on_events strtod es h'
