-- ===== src/Json/Cell/Assign.antt =====
-- The constructors and assignments of json_value over its storage (libsofadb/native_json.h).
use sofa_db.Prelude.{Option, none, some}
use sofa_db.Failure.{Result, ok, ◌>>=◌, ◌>>◌, assert}
use sofa_db.Json.Value.{
  JsonDisc, nil_d, bool_d, int_d, double_d, string_d, big_int_d, submap_d, sublist_d, graft_d,
}
use sofa_db.Json.Cell.{
  small_int, Cell, Kind, bool_kind, int_kind, double_kind, str_kind, big_int_kind, submap_kind,
  sublist_kind, graft_kind, object_of, initial, rest, owned, same_disc, get_payload, make,
  clear_cell, fresh,
}

-- json_value(json_disc), over a storage in which nothing lives.
unfoldable pub construct_disc : JsonDisc → JsonDisc → Cell
unfolding make initial owned
construct_disc stale nil_d = record (fresh stale) { disc = nil_d }
construct_disc stale bool_d = make bool_kind (initial bool_kind) (fresh stale)
construct_disc stale int_d = record (fresh stale) { disc = int_d; object = small_int }
construct_disc stale double_d = make double_kind (initial double_kind) (fresh stale)
construct_disc stale string_d = make str_kind (initial str_kind) (fresh stale)
construct_disc stale big_int_d = make big_int_kind (initial big_int_kind) (fresh stale)
construct_disc stale submap_d = make submap_kind (initial submap_kind) (fresh stale)
construct_disc stale sublist_d = make sublist_kind (initial sublist_kind) (fresh stale)
construct_disc stale graft_d = make graft_kind (initial graft_kind) (fresh stale)

-- make<T, D>(other.get())
unfoldable pub copy_payload : Kind → Cell → Cell → Result Cell
unfolding get_payload make
copy_payload k other c = get_payload k other >>= λ t. ok (make k t c)

-- The switch of assign(const json_value &).
unfoldable pub copy_content : JsonDisc → Cell → Cell → Result Cell
unfolding copy_payload
copy_content nil_d other c = ok (record c { disc = nil_d })
copy_content bool_d other c = copy_payload bool_kind other c
copy_content int_d other c = copy_payload int_kind other c
copy_content double_d other c = copy_payload double_kind other c
copy_content string_d other c = copy_payload str_kind other c
copy_content big_int_d other c = copy_payload big_int_kind other c
copy_content submap_d other c = copy_payload submap_kind other c
copy_content sublist_d other c = copy_payload sublist_kind other c
copy_content graft_d other c = copy_payload graft_kind other c

-- assign(const json_value &)
unfoldable pub assign : Cell → Cell → Result Cell
unfolding copy_content same_disc
assign other c =
    copy_content other.disc other c >>= λ c'. (assert (same_disc c'.disc other.disc) >> ok c')

-- make<T, D>(std::move(other.get())): the value, and the other one.
unfoldable pub move_payload : Kind → Cell → Cell → Result (Cell × Cell)
unfolding get_payload make object_of rest
move_payload k other c =
    get_payload k other >>= λ t. ok (make k t c, record other { object = object_of k (rest k t) })

-- The switch of assign(json_value &&).
unfoldable pub move_content : JsonDisc → Cell → Cell → Result (Cell × Cell)
unfolding move_payload
move_content nil_d other c = ok (record c { disc = nil_d }, other)
move_content bool_d other c = move_payload bool_kind other c
move_content int_d other c = move_payload int_kind other c
move_content double_d other c = move_payload double_kind other c
move_content string_d other c = move_payload str_kind other c
move_content big_int_d other c = move_payload big_int_kind other c
move_content submap_d other c = move_payload submap_kind other c
move_content sublist_d other c = move_payload sublist_kind other c
move_content graft_d other c = move_payload graft_kind other c

-- assign(json_value &&)
unfoldable pub assign_move : Cell → Cell → Result (Cell × Cell)
unfolding move_content same_disc
assign_move other c = move_content other.disc other c >>= λ moved.
    (assert (same_disc moved.0.disc moved.1.disc) >> ok moved)

-- json_value(const json_value &) and json_value(json_value &&)
unfoldable pub construct_copy : JsonDisc → Cell → Result Cell
unfolding assign
construct_copy stale other = assign other (fresh stale)

unfoldable pub construct_move : JsonDisc → Cell → Result (Cell × Cell)
unfolding assign_move
construct_move stale other = assign_move other (fresh stale)

-- operator=(const json_value &); `none` stands for the value itself.
unfoldable pub assign_from : Option Cell → Cell → Result Cell
unfolding clear_cell assign
assign_from none c = ok c
assign_from (some other) c = clear_cell c >>= assign other

-- operator=(json_value &&): the value, and the other one, if it is another.
unfoldable pub move_from : Option Cell → Cell → Result (Cell × Option Cell)
unfolding clear_cell assign_move
move_from none c = ok (c, none)
move_from (some other) c =
    clear_cell c >>= λ c'. (assign_move other c' >>= λ moved. ok (moved.0, some moved.1))
