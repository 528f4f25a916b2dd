-- ===== src/Json/Cell/Moves.antt =====
-- Moves, assignments and setters of a json_value in memory.
use mathlib.Core.Path.{subst}
use sofa_db.Prelude.{refl, sym}
use sofa_db.Failure.{Result, ok, fail, ◌>>=◌, ◌>>◌, assert}
use sofa_db.Json.Value.{
  JsonValue, nil, bool, int, double, str, big_int, submap, sublist, graft, type_of, moved_from,
}
use sofa_db.Json.Access.{
  get_bool, get_int, get_double, get_str, get_big_int, get_submap, get_sublist, get_graft,
}
use sofa_db.Json.Cell.{
  Cell, bool_kind, int_kind, double_kind, str_kind, big_int_kind, submap_kind, sublist_kind,
  graft_kind, disc_of, object_of, rest, same_disc, make,
}
use sofa_db.Json.Cell.Assign.{move_payload, move_content, assign_move}
use sofa_db.Json.Cell.Stands.{Stands, of_payload, get_payload_lem}
use sofa_db.Json.Cell.Refines.{IsClean, make_lem}

-- A move gives the value and leaves what is moved from.
abbrev pub AgreesMoved : JsonValue → Result (Cell × Cell) → Type 0
AgreesMoved w (ok (c, o)) = Stands c w × Stands o (moved_from w)
AgreesMoved w (fail e) = ⊥

move_from_type :
    (other c : Cell) (w : JsonValue)
    → Stands other w
    → IsClean c
    → AgreesMoved w (
        move_content (type_of w) other c >>= λ moved.
        (assert (same_disc moved.0.disc moved.1.disc) >> ok moved))
unfolding move_content move_payload type_of same_disc make disc_of object_of rest moved_from
move_from_type other c nil h e = rw h.typed (
  record { typed = refl; held = e.unowned; unleaked = e.unleaked },
  record { typed = refl; held = h.held; unleaked = h.unleaked },
)
move_from_type other c (bool b) h e = rw (get_payload_lem bool_kind other (bool b) h) (
    unfold get_bool of_payload in
    rw h.typed
      (make_lem bool_kind b c e, record { typed = refl; held = refl; unleaked = h.unleaked }))
move_from_type other c (int i) h e = rw (get_payload_lem int_kind other (int i) h) (
    unfold get_int of_payload in
    rw h.typed
      (make_lem int_kind i c e, record { typed = refl; held = refl; unleaked = h.unleaked }))
move_from_type other c (double d) h e = rw (get_payload_lem double_kind other (double d) h) (
    unfold get_double of_payload in
    rw h.typed
      (make_lem double_kind d c e, record { typed = refl; held = refl; unleaked = h.unleaked }))
move_from_type other c (str s) h e = rw (get_payload_lem str_kind other (str s) h) (
    unfold get_str of_payload in
    rw h.typed
      (make_lem str_kind s c e, record { typed = refl; held = refl; unleaked = h.unleaked }))
move_from_type other c (big_int s) h e = rw (get_payload_lem big_int_kind other (big_int s) h) (
    unfold get_big_int of_payload in
    rw h.typed
      (make_lem big_int_kind s c e, record { typed = refl; held = refl; unleaked = h.unleaked }))
move_from_type other c (submap m) h e = rw (get_payload_lem submap_kind other (submap m) h) (
    unfold get_submap of_payload in
    rw h.typed
      (make_lem submap_kind m c e, record { typed = refl; held = refl; unleaked = h.unleaked }))
move_from_type other c (sublist l) h e = rw (get_payload_lem sublist_kind other (sublist l) h) (
    unfold get_sublist of_payload in
    rw h.typed
      (make_lem sublist_kind l c e, record { typed = refl; held = refl; unleaked = h.unleaked }))
move_from_type other c (graft g) h e = rw (get_payload_lem graft_kind other (graft g) h) (
    unfold get_graft of_payload in
    rw h.typed
      (make_lem graft_kind g c e, record { typed = refl; held = refl; unleaked = h.unleaked }))

-- assign(json_value &&)
pub assign_move_lem :
    (other c : Cell) (w : JsonValue)
    → Stands other w
    → IsClean c
    → AgreesMoved w (assign_move other c)
unfolding assign_move
assign_move_lem other c w h e =
    subst
      (λ d. AgreesMoved w (
        move_content d other c >>= λ moved.
        (assert (same_disc moved.0.disc moved.1.disc) >> ok moved)))
      (sym h.typed) (move_from_type other c w h e)
