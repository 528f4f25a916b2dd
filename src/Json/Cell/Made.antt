-- ===== src/Json/Cell/Made.antt =====
-- What the constructors of json_value make, and what a visitor is told.
use sofa_db.Prelude.{ℕ, ◌≡◌, ◌≢◌, refl, ap, ◌∙◌}
use sofa_db.Failure.{ok, fail, undefined}
use sofa_db.Json.Value.{
  JsonDisc, nil_d, bool_d, int_d, double_d, string_d, big_int_d, submap_d, sublist_d, graft_d,
  JsonValue, nil, bool, int, double, str, big_int, submap, sublist, graft, type_of, of_disc,
}
use sofa_db.Json.Access.{
  get_bool, get_int, get_double, get_str, get_big_int, get_submap, get_sublist, get_graft,
}
use sofa_db.Json.Cell.{
  Cell, bool_kind, int_kind, double_kind, str_kind, big_int_kind, submap_kind, sublist_kind,
  graft_kind, owned, initial, get_payload, fresh, read_as, same_disc, disc_of,
}
use sofa_db.Json.Cell.Assign.{construct_disc, construct_copy, construct_move}
use sofa_db.Json.Cell.Visit.{Visitor, visit_as, apply_visitor}
use sofa_db.Json.Cell.Stands.{Stands, of_payload, get_payload_lem}
use sofa_db.Json.Cell.Refines.{Agrees, IsClean, make_lem, assign_lem}
use sofa_db.Json.Cell.Moves.{AgreesMoved, assign_move_lem}

fresh-IsClean : (stale : JsonDisc) → IsClean (fresh stale)
unfolding owned
fresh-IsClean stale = record { unowned = refl; unleaked = refl }

-- The constructor from a discriminator makes the initial value of its type: but for int_d, where
-- get_int reads an int64_t in whose place there is an int of four bytes, which is undefined.
pub construct_disc_lem :
    (stale d : JsonDisc) (bytes : ℕ)
    → (d ≢ int_d → Stands (construct_disc stale d) (of_disc bytes d))
      × (get_payload int_kind (construct_disc stale int_d) ≡ fail undefined)
unfolding construct_disc of_disc
construct_disc_lem stale d bytes =
    (initial_lem d, unfold get_payload read_as same_disc disc_of in refl)
  where
    initial_lem : (d : JsonDisc) → d ≢ int_d → Stands (construct_disc stale d) (of_disc bytes d)
    initial_lem nil_d n =
        unfold type_of owned in record { typed = refl; held = refl; unleaked = refl }
    initial_lem int_d n = absurd (n refl)
    initial_lem bool_d n =
        unfold of_payload initial in
        make_lem bool_kind (initial bool_kind) (fresh stale) (fresh-IsClean stale)
    initial_lem double_d n =
        unfold of_payload initial in
        make_lem double_kind (initial double_kind) (fresh stale) (fresh-IsClean stale)
    initial_lem string_d n =
        unfold of_payload initial in
        make_lem str_kind (initial str_kind) (fresh stale) (fresh-IsClean stale)
    initial_lem big_int_d n =
        unfold of_payload initial in
        make_lem big_int_kind (initial big_int_kind) (fresh stale) (fresh-IsClean stale)
    initial_lem submap_d n =
        unfold of_payload initial in
        make_lem submap_kind (initial submap_kind) (fresh stale) (fresh-IsClean stale)
    initial_lem sublist_d n =
        unfold of_payload initial in
        make_lem sublist_kind (initial sublist_kind) (fresh stale) (fresh-IsClean stale)
    initial_lem graft_d n =
        unfold of_payload initial in
        make_lem graft_kind (initial graft_kind) (fresh stale) (fresh-IsClean stale)

-- The copy and the move constructor make the value of the other one, whatever stood in the
-- storage as a discriminator before; the move leaves what the other one's type leaves.
pub construct_copy_lem :
    (stale : JsonDisc) (other : Cell) (w : JsonValue)
    → Stands other w
    → Agrees (construct_copy stale other) (ok w) × AgreesMoved w (construct_move stale other)
unfolding construct_copy construct_move
construct_copy_lem stale other w h = (
  assign_lem other (fresh stale) w h (fresh-IsClean stale),
  assign_move_lem other (fresh stale) w h (fresh-IsClean stale),
)

module _ {R : Type 0} (vis : Visitor R) where
  -- The operator() that a visitor is called at, for a value.
  unfoldable pub visited : JsonValue → R
  visited nil = vis.on_nil
  visited (bool b) = vis.on_bool b
  visited (int i) = vis.on_int i
  visited (double d) = vis.on_double d
  visited (str s) = vis.on_str s
  visited (big_int s) = vis.on_big_int s
  visited (submap m) = vis.on_submap m
  visited (sublist l) = vis.on_sublist l
  visited (graft g) = vis.on_graft g

  visit_type : (c : Cell) (v : JsonValue) → Stands c v → visit_as vis (type_of v) c ≡ ok (visited v)
  unfolding visit_as type_of visited
  visit_type c nil h = refl
  visit_type c (bool b) h = rw (get_payload_lem bool_kind c (bool b) h) (unfold get_bool in refl)
  visit_type c (int i) h = rw (get_payload_lem int_kind c (int i) h) (unfold get_int in refl)
  visit_type c (double d) h =
      rw (get_payload_lem double_kind c (double d) h) (unfold get_double in refl)
  visit_type c (str s) h = rw (get_payload_lem str_kind c (str s) h) (unfold get_str in refl)
  visit_type c (big_int s) h =
      rw (get_payload_lem big_int_kind c (big_int s) h) (unfold get_big_int in refl)
  visit_type c (submap m) h =
      rw (get_payload_lem submap_kind c (submap m) h) (unfold get_submap in refl)
  visit_type c (sublist l) h =
      rw (get_payload_lem sublist_kind c (sublist l) h) (unfold get_sublist in refl)
  visit_type c (graft g) h =
      rw (get_payload_lem graft_kind c (graft g) h) (unfold get_graft in refl)

  -- A visitor is told the payload, by its type, and is told nothing else; no read throws.
  pub apply_visitor_lem :
      (c : Cell) (v : JsonValue) → Stands c v → apply_visitor vis c ≡ ok (visited v)
  unfolding apply_visitor
  apply_visitor_lem c v h = ap (λ d. visit_as vis d c) h.typed ∙ visit_type c v h
