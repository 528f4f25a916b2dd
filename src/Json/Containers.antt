-- ===== src/Json/Containers.antt =====
-- sublist_t, a std::vector, and submap_t, a std::map, as json_value holds them
-- (libsofadb/native_json.h).
pub mod Laws
use sofa_db.Prelude.{ℕ, zero, suc, Bool, true, false, Option, none, some, if◌then◌else◌}
use sofa_db.Text.{Bytes, bytes_lt, bytes_eq}
use sofa_db.Failure.{Result, ok, fail, out_of_range, undefined, ◌>>=◌}
use sofa_db.Json.Value.{JsonValue, Items, Fields, nil, submap, no_items, item, no_fields, field}
use sofa_db.Json.Access.{get_submap}

-- push_back
unfoldable pub push_back : Items → JsonValue → Items
push_back no_items v = item v no_items
push_back (item w l) v = item w (push_back l v)

-- at(i)
unfoldable pub at_index : Items → ℕ → Result JsonValue
at_index no_items i = fail out_of_range
at_index (item v l) zero = ok v
at_index (item v l) (suc i) = at_index l i

-- back(): undefined on an empty vector.
unfoldable pub back : Items → Result JsonValue
back no_items = fail undefined
back (item v no_items) = ok v
back (item v (item w l)) = back (item w l)

-- The writes through a reference to an element that is there.
unfoldable pub set_index : Items → ℕ → JsonValue → Items
set_index no_items i v = no_items
set_index (item w l) zero v = item v l
set_index (item w l) (suc i) v = item w (set_index l i v)

unfoldable pub set_back : Items → JsonValue → Items
set_back no_items v = no_items
set_back (item w no_items) v = item v no_items
set_back (item w (item u l)) v = item w (set_back (item u l) v)

-- find(key)
unfoldable pub find_field : Bytes → Fields → Option JsonValue
find_field k no_fields = none
find_field k (field j v m) = if bytes_eq j k then some v else find_field k m

-- map[key] = v: the entry is made in the place of its key, or written over.
unfoldable pub set_field : Bytes → JsonValue → Fields → Fields
set_field k v no_fields = field k v no_fields
set_field k v (field j w m) =
    let rest = set_field k v m in
    if bytes_lt k j
    then field k v (field j w m)
    else if bytes_lt j k
    then field j w rest
    else field j v m

-- insert(pair): an entry that is there stays as it is.
unfoldable pub insert_field : Bytes → JsonValue → Fields → Fields
insert_field k v no_fields = field k v no_fields
insert_field k v (field j w m) =
    let rest = insert_field k v m in
    if bytes_lt k j
    then field k v (field j w m)
    else if bytes_lt j k
    then field j w rest
    else field j w m

-- json_value::operator[] const: map.at(key)
unfoldable pub at_key : JsonValue → Bytes → Result JsonValue
unfolding get_submap find_field
at_key v k = do m ← get_submap v; elim (find_field k m) [ none ↦ fail out_of_range | some w ↦ ok w ]

-- json_value::operator[]: the element's value, a nil one made if the key is missing.
unfoldable pub index_key : JsonValue → Bytes → Result (JsonValue × JsonValue)
unfolding get_submap find_field set_field
index_key v k = do
  m ← get_submap v
  elim (find_field k m) [ none ↦ ok (nil, submap (set_field k nil m)) | some w ↦ ok (w, submap m) ]

-- json_value::insert
unfoldable pub insert_key : JsonValue → Bytes → JsonValue → Result JsonValue
unfolding get_submap insert_field
insert_key v k w = do m ← get_submap v; ok (submap (insert_field k w m))

-- json[key] = w, an assignment through operator[].
unfoldable pub assign_key : JsonValue → Bytes → JsonValue → Result JsonValue
unfolding get_submap set_field
assign_key v k w = do m ← get_submap v; ok (submap (set_field k w m))
