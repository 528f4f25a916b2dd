-- ===== src/Conflict.antt =====
-- resolver, which merges a revision into a document's log: libsofadb/conflict.h and conflict.cpp.
pub mod Winning
pub mod Spec
pub mod Merge
pub mod Sound
use sofa_db.Prelude.{
  ℕ, Bool, true, false, not, ◌&&◌, ◌||◌, List, [], ◌∷◌, length, ltb, ◌==◌, if◌then◌else◌,
}
use sofa_db.Text.{Bytes, bytes_eq, bytes_lt}
use sofa_db.Failure.{Result, ok, fail, undefined, ◌>>=◌, ◌>>◌, assert}
use sofa_db.Json.Value.{JsonValue, Items, str, no_items, item}
use sofa_db.Json.Access.{get_str}
use sofa_db.Json.Containers.{push_back}
use sofa_db.Revision.{Revision, is_empty}
use sofa_db.Revlog.{top_rev_id, get_conflicts, put_conflicts, add_rev_info}
use sofa_db.Externals.{Externals}

-- The test of is_left_rev_winning, once its assertion holds.
unfoldable pub wins : Revision → Revision → Bool
wins left right =
    if not (left.num == right.num)
    then ltb right.num left.num
    else if not (length left.uniq == length right.uniq)
    then ltb (length left.uniq) (length right.uniq)
    else bytes_lt left.uniq right.uniq

-- is_left_rev_winning
unfoldable pub is_left_rev_winning : Revision → Revision → Result Bool
unfolding is_empty
is_left_rev_winning left right = do
  assert (not (is_empty left) && not (is_empty right))
  ok (wins left right)

-- visited.find(s) != visited.end()
unfoldable pub member : Bytes → List Bytes → Bool
member s [] = false
member s (t ∷ l) = bytes_eq t s || member s l

-- The texts of the conflicts that are there, as the set `visited`.
unfoldable pub visit : Items → Result (List Bytes)
unfolding get_str
visit no_items = ok []
visit (item v l) = do s ← get_str v; rest ← visit l; ok (s ∷ rest)

-- The loop that adds the new revision's conflicts, but for those that are there.
unfoldable pub add_conflicts : Items → Items → List Bytes → Result (Items × List Bytes)
unfolding get_str push_back member
add_conflicts no_items conflicts visited = ok (conflicts, visited)
add_conflicts (item v l) conflicts visited = get_str v >>= λ s.
    if member s visited
    then add_conflicts l conflicts visited
    else add_conflicts l (push_back conflicts (str s)) (s ∷ visited)

-- visited.find(s) != visited.end(), where the set holds references to the conflicts' texts. They
-- are alive as long as the log's vector keeps its storage; a search compares with a text unless the
-- set is empty.
unfoldable pub seen : Bool → Bytes → List Bytes → Result Bool
unfolding member
seen alive s [] = ok false
seen alive s (t ∷ l) = if alive then ok (member s (t ∷ l)) else fail undefined

-- conflicts.push_back(s), through a reference that is alive or not.
unfoldable pub push_through : Bool → Items → Bytes → Result Items
unfolding push_back
push_through alive conflicts s = if alive then ok (push_back conflicts (str s)) else fail undefined

-- The end of either branch: the text of the losing revision becomes a conflict.
unfoldable pub push_unless : Bool → Bytes → List Bytes → Items → Result Items
unfolding seen push_through
push_unless alive s visited conflicts = do
  there ← seen alive s visited
  if there then ok conflicts else push_through alive conflicts s

-- The branch where the current revision wins.
unfoldable pub keep_current :
    Revision → Revision → Items → List Bytes → JsonValue → Result JsonValue
unfolding seen push_unless put_conflicts
keep_current cur_rev new_rev conflicts visited log = do
  there ← seen true cur_rev.stringed visited
  assert (not there)
  conflicts' ← push_unless true new_rev.stringed visited conflicts
  put_conflicts conflicts' log

-- The branch where the new revision wins. `conflicts` and `visited` refer into the vector that
-- add_rev_info appends to: where that has no room for one more entry its storage is replaced, the
-- elements are copied, and the references are to storage that is gone.
unfoldable pub replace_current :
    ℕ → Revision → Revision → Items → List Bytes → JsonValue → Result JsonValue
unfolding seen push_unless put_conflicts add_rev_info
replace_current room cur_rev new_rev conflicts visited log = do
  log' ← add_rev_info new_rev true false log
  let alive = not (room == 0)
  there ← seen alive new_rev.stringed visited
  assert (not there)
  conflicts' ← push_unless alive cur_rev.stringed visited conflicts
  put_conflicts conflicts' log'

-- merge: the log's new value. `room` is the spare capacity of the log's vector, which the library
-- chooses.
unfoldable pub merge : Externals → ℕ → Revision → Items → JsonValue → Result JsonValue
unfolding visit add_conflicts is_left_rev_winning top_rev_id get_conflicts put_conflicts
merge x room new_rev new_rev_conflicts log = do
  cur_rev ← top_rev_id x log
  old ← get_conflicts log
  seen ← visit old
  both ← add_conflicts new_rev_conflicts old seen
  log' ← put_conflicts both.0 log
  losing ← is_left_rev_winning cur_rev new_rev
  if losing
      then keep_current cur_rev new_rev both.0 both.1 log'
      else replace_current room cur_rev new_rev both.0 both.1 log'
