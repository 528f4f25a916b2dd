-- ===== src/Revlog.antt =====
-- revlog_wrapper, the revision log of a document as a JSON value: libsofadb/database.h.
pub mod View
pub mod Refines
pub mod Plain
use sofa_db.Prelude.{ℕ, Bool, true, false}
use sofa_db.Prelude.Int.{ℤ, pos}
use sofa_db.Text.{Bytes}
use sofa_db.Failure.{Result, ok, fail, assertion, ◌>>=◌, ◌>>◌, assert}
use sofa_db.Json.Value.{
  JsonDisc, JsonValue, Items, nil, bool, int, str, sublist, no_items, item, nil_d, type_of,
}
use sofa_db.Json.Access.{get_int, get_str, get_sublist, as_sublist}
use sofa_db.Json.Containers.{push_back, at_index, set_index, back}
use sofa_db.Revision.{Revision, make_revision, to_u32}
use sofa_db.Externals.{Externals}

-- is_nil
unfoldable pub is_nil : JsonValue → Bool
is_nil nil = true
is_nil v = false

-- init
unfoldable pub init_log : JsonValue → Result JsonValue
unfolding is_nil as_sublist push_back
init_log log = do
  assert (is_nil log)
  sub ← as_sublist log
  ok (sublist (push_back (push_back sub (sublist no_items)) (sublist no_items)))

-- The entry that add_rev_info makes.
unfoldable pub quad : Revision → Bool → Bool → JsonValue
quad rev available is_deleted = sublist (
    item (int (pos rev.num))
      (item (str rev.uniq) (item (bool available) (item (bool is_deleted) no_items))))

-- add_rev_info
unfoldable pub add_rev_info : Revision → Bool → Bool → JsonValue → Result JsonValue
unfolding quad as_sublist
add_rev_info rev available is_deleted log = do
  sub ← as_sublist log
  ok (sublist (push_back sub (quad rev available is_deleted)))

-- top_quad
unfoldable pub top_quad : JsonValue → Result Items
unfolding get_sublist
top_quad log = do sub ← get_sublist log; last ← back sub; get_sublist last

-- top_rev_id: the number of the entry is converted to a uint32_t.
unfoldable pub top_rev_id : Externals → JsonValue → Result Revision
unfolding top_quad at_index get_int get_str to_u32
top_rev_id x log = do
  entry ← top_quad log
  first ← at_index entry 0
  num ← get_int first
  second ← at_index entry 1
  uniq ← get_str second
  ok (make_revision x (to_u32 num) uniq)

-- get_conflicts
unfoldable pub get_conflicts : JsonValue → Result Items
unfolding as_sublist at_index get_sublist
get_conflicts log = do sub ← as_sublist log; first ← at_index sub 0; get_sublist first

-- A write through the reference that get_conflicts gives.
unfoldable pub put_conflicts : Items → JsonValue → Result JsonValue
unfolding as_sublist set_index
put_conflicts conflicts log = do
  sub ← as_sublist log
  ok (sublist (set_index sub 0 (sublist conflicts)))

-- add_conflict
unfoldable pub add_conflict : Bytes → JsonValue → Result JsonValue
unfolding get_conflicts put_conflicts
add_conflict rev log = do
  conflicts ← get_conflicts log
  put_conflicts (push_back conflicts (str rev)) log
