-- ===== src/Json/Events.antt =====
-- The events of RapidJSON's writer and reader, and rapid_json_printer, which tells a writer of a
-- value (libsofadb/native_json.cpp).
use sofa_db.Prelude.{ℕ, Bool, List, [], ◌∷◌, ◌++◌}
use sofa_db.Prelude.Int.{ℤ}
use sofa_db.Text.{Bytes}
use sofa_db.Json.Value.{
  JsonValue, Items, Fields, nil, int, str, submap, sublist, graft, no_items, item, no_fields, field,
}

-- The calls of a writer.
pub data WriteEvent : Type 0 where
  null start_object end_object start_array end_array : WriteEvent
  bool : Bool → WriteEvent
  int64 : ℤ → WriteEvent
  double : ℕ → WriteEvent
  string big_int : Bytes → WriteEvent

-- The calls that a reader makes of its handler. The number of entries, which the handler ignores,
-- is left out of the closing calls.
pub data ReadEvent : Type 0 where
  null start_object end_object start_array end_array : ReadEvent
  bool : Bool → ReadEvent
  big_num string : Bytes → ReadEvent

-- rapid_json_printer, one function for each overload that recurs.
unfoldable mutual
  pub print : JsonValue → List WriteEvent
  print nil = WriteEvent.null ∷ []
  print (JsonValue.bool b) = WriteEvent.bool b ∷ []
  print (int i) = WriteEvent.int64 i ∷ []
  print (JsonValue.double d) = WriteEvent.double d ∷ []
  print (str s) = WriteEvent.string s ∷ []
  print (JsonValue.big_int s) = WriteEvent.big_int s ∷ []
  print (submap m) = WriteEvent.start_object ∷ (print_fields m ++ (WriteEvent.end_object ∷ []))
  print (sublist l) = WriteEvent.start_array ∷ (print_items l ++ (WriteEvent.end_array ∷ []))
  print (graft g) = print g

  pub print_items : Items → List WriteEvent
  print_items no_items = []
  print_items (item v l) = print v ++ print_items l

  pub print_fields : Fields → List WriteEvent
  print_fields no_fields = []
  print_fields (field k v m) = WriteEvent.string k ∷ (print v ++ print_fields m)
