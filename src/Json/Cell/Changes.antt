-- ===== src/Json/Cell/Changes.antt =====
-- Sequences of the operations that change a json_value: what they do in memory, and on values.
use sofa_db.Prelude.{refl, Option, none, some, List, [], ◌∷◌}
use sofa_db.Failure.{Result, ok, fail, ◌>>=◌}
use sofa_db.Json.Value.{
  JsonValue, nil, bool, int, double, str, big_int, submap, sublist, graft, type_of,
}
use sofa_db.Json.Cell.{
  Cell, Kind, bool_kind, int_kind, double_kind, str_kind, big_int_kind, submap_kind, sublist_kind,
  graft_kind, Carrier, owned, as_payload, set_payload, set_moved, clear_cell, empty_cell, construct,
}
use sofa_db.Json.Cell.Assign.{assign_move, assign_from, move_from}
use sofa_db.Json.Cell.Stands.{Stands, of_payload}
use sofa_db.Json.Cell.Refines.{
  Agrees, Agrees-ok, IsClean, make_lem, clear_cell_lem, clean_lem, assign_lem,
}
use sofa_db.Json.Cell.Setters.{AgreesAs, ready, as_payload_lem, set_payload_lem, set_moved_lem}
use sofa_db.Json.Cell.Moves.{AgreesMoved, assign_move_lem}

-- The operations that change a value: clear, the assignments, from itself or from another value,
-- as_* and set_*.
pub data Change : Type 0 where
  clearing copying_self moving_self : Change
  copying moving : JsonValue → Change
  taking : Kind → Change
  setting setting_moved : (k : Kind) → Carrier k → Change

-- The constructors from a payload, by the value that they make.
unfoldable pub cell_of : JsonValue → Cell
cell_of nil = empty_cell
cell_of (bool b) = construct bool_kind b
cell_of (int i) = construct int_kind i
cell_of (double d) = construct double_kind d
cell_of (str s) = construct str_kind s
cell_of (big_int s) = construct big_int_kind s
cell_of (submap m) = construct submap_kind m
cell_of (sublist l) = construct sublist_kind l
cell_of (graft g) = construct graft_kind g

unfoldable pub change_cell : Change → Cell → Result Cell
change_cell clearing c = clear_cell c
change_cell copying_self c = assign_from none c
change_cell moving_self c = move_from none c >>= λ moved. ok moved.0
change_cell (copying w) c = assign_from (some (cell_of w)) c
change_cell (moving w) c = move_from (some (cell_of w)) c >>= λ moved. ok moved.0
change_cell (taking k) c = as_payload k c >>= λ found. ok found.0
change_cell (setting k t) c = set_payload k t c
change_cell (setting_moved k t) c = set_moved k t c

-- What a change does to a value: an assignment replaces it, and set_* too, unless the value holds
-- a payload of another type and the assertion of as_* fails.
unfoldable pub change_value : Change → JsonValue → Result JsonValue
change_value clearing v = ok nil
change_value copying_self v = ok v
change_value moving_self v = ok v
change_value (copying w) v = ok w
change_value (moving w) v = ok w
change_value (taking k) v = ready k v
change_value (setting k t) v = ready k v >>= λ u. ok (of_payload k t)
change_value (setting_moved k t) v = ok (of_payload k t)

empty-IsClean : IsClean empty_cell
unfolding owned
empty-IsClean = record { unowned = refl; unleaked = refl }

pub cell_of_lem : (v : JsonValue) → Stands (cell_of v) v
unfolding cell_of construct
cell_of_lem nil = unfold type_of owned in record { typed = refl; held = refl; unleaked = refl }
cell_of_lem (bool b) = unfold of_payload in make_lem bool_kind b empty_cell empty-IsClean
cell_of_lem (int i) = unfold of_payload in make_lem int_kind i empty_cell empty-IsClean
cell_of_lem (double d) = unfold of_payload in make_lem double_kind d empty_cell empty-IsClean
cell_of_lem (str s) = unfold of_payload in make_lem str_kind s empty_cell empty-IsClean
cell_of_lem (big_int s) = unfold of_payload in make_lem big_int_kind s empty_cell empty-IsClean
cell_of_lem (submap m) = unfold of_payload in make_lem submap_kind m empty_cell empty-IsClean
cell_of_lem (sublist l) = unfold of_payload in make_lem sublist_kind l empty_cell empty-IsClean
cell_of_lem (graft g) = unfold of_payload in make_lem graft_kind g empty_cell empty-IsClean

-- operator=(const json_value &) and operator=(json_value &&), of another value.
assign_from_lem :
    (other c : Cell) (w v : JsonValue)
    → Stands other w
    → Stands c v
    → Agrees (assign_from (some other) c) (ok w)
unfolding assign_from
assign_from_lem other c w v h g =
    let (c', e, s) = Agrees-ok (clear_cell c) nil (clear_cell_lem c v g) in
    rw e (assign_lem other c' w h (clean_lem c' s))

abbrev both_kept : Cell × Cell → Result (Cell × Option Cell)
both_kept moved = ok (moved.0, some moved.1)

abbrev first_kept : Cell × Option Cell → Result Cell
first_kept moved = ok moved.0

first_moved :
    (w : JsonValue) (r : Result (Cell × Cell))
    → AgreesMoved w r
    → Agrees ((r >>= both_kept) >>= first_kept) (ok w)
first_moved w (ok (c, o)) h = h.0
first_moved w (fail e) h = absurd h

move_from_lem :
    (other c : Cell) (w v : JsonValue)
    → Stands other w
    → Stands c v
    → Agrees (move_from (some other) c >>= λ moved. ok moved.0) (ok w)
unfolding move_from
move_from_lem other c w v h g =
    let (c', e, s) = Agrees-ok (clear_cell c) nil (clear_cell_lem c v g) in
    rw e (first_moved w (assign_move other c') (assign_move_lem other c' w h (clean_lem c' s)))

as_ready :
    (k : Kind) (r : Result (Cell × Carrier k)) (v : Result JsonValue)
    → AgreesAs k r v
    → Agrees (r >>= λ found. ok found.0) v
as_ready k (ok (c, t)) (ok v) h = h.0
as_ready k (fail e) (fail f) h = h
as_ready k (ok (c, t)) (fail f) h = absurd h
as_ready k (fail e) (ok v) h = absurd h

pub change_lem :
    (ch : Change) (c : Cell) (v : JsonValue)
    → Stands c v
    → Agrees (change_cell ch c) (change_value ch v)
unfolding change_cell change_value
change_lem clearing c v h = clear_cell_lem c v h
change_lem copying_self c v h = unfold assign_from in h
change_lem moving_self c v h = unfold move_from in h
change_lem (copying w) c v h = assign_from_lem (cell_of w) c w v (cell_of_lem w) h
change_lem (moving w) c v h = move_from_lem (cell_of w) c w v (cell_of_lem w) h
change_lem (taking k) c v h = as_ready k (as_payload k c) (ready k v) (as_payload_lem k c v h)
change_lem (setting k t) c v h = set_payload_lem k t c v h
change_lem (setting_moved k t) c v h = set_moved_lem k t c v h

unfoldable pub changes_cell : List Change → Cell → Result Cell
changes_cell [] c = ok c
changes_cell (ch ∷ chs) c = change_cell ch c >>= changes_cell chs

unfoldable pub changes_value : List Change → JsonValue → Result JsonValue
changes_value [] v = ok v
changes_value (ch ∷ chs) v = change_value ch v >>= changes_value chs

Agrees-then :
    (f : Cell → Result Cell) (g : JsonValue → Result JsonValue)
    → ((c : Cell) (v : JsonValue) → Stands c v → Agrees (f c) (g v))
    → (r : Result Cell) (s : Result JsonValue) → Agrees r s
    → Agrees (r >>= f) (s >>= g)
Agrees-then f g h (ok c) (ok v) a = h c v a
Agrees-then f g h (fail e) (fail e') a = a
Agrees-then f g h (ok c) (fail e) a = absurd a
Agrees-then f g h (fail e) (ok v) a = absurd a

-- Any sequence of clear, of copy and move assignments to a json_value from itself or from
-- another value that is no part of it, of as_*, with no write through the reference, and of
-- set_*, from a copy or a moved payload, does in memory what it does on values: it stops with
-- the same failed assertion, or the discriminator names the object that lives in the storage,
-- which is that of the value, and no object was overwritten without its destructor. No operation
-- reads an object of another type. It starts at a json_value that stands for a value.
pub changes_lem :
    (chs : List Change) (c : Cell) (v : JsonValue)
    → Stands c v
    → Agrees (changes_cell chs c) (changes_value chs v)
unfolding changes_cell changes_value
changes_lem [] c v h = h
changes_lem (ch ∷ chs) c v h =
    Agrees-then (changes_cell chs) (changes_value chs) (changes_lem chs) (change_cell ch c)
      (change_value ch v) (change_lem ch c v h)
