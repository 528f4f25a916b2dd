-- ===== src/Json/Cell/Refines.antt =====
-- The operations of a json_value in memory against those on values.
use mathlib.Core.Path.{subst}
use sofa_db.Prelude.{◌≡◌, refl, sym, ap, arith}
use sofa_db.Failure.{Result, ok, fail, ◌>>=◌, ◌>>◌, assert}
use sofa_db.Json.Value.{
  nil_d, JsonValue, nil, bool, int, double, str, big_int, submap, sublist, graft, type_of,
}
use sofa_db.Json.Access.{
  get_bool, get_int, get_double, get_str, get_big_int, get_submap, get_sublist, get_graft,
}
use sofa_db.Json.Cell.{
  Cell, Kind, bool_kind, int_kind, double_kind, str_kind, big_int_kind, submap_kind, sublist_kind,
  graft_kind, Carrier, disc_of, object_of, owned, same_disc, make, clear_cell, destroy_content,
  destroy,
}
use sofa_db.Json.Cell.Assign.{copy_payload, copy_content, assign}
use sofa_db.Json.Cell.Stands.{Stands, of_payload, get_payload_lem}

-- A storage in which nothing lives that wants a destructor.
pub record IsClean (c : Cell) : Type 0 where
  pub unowned : owned c.object ≡ 0
  pub unleaked : c.leaks ≡ 0

-- The result of an operation on the memory, and that of the operation on values.
abbrev pub Agrees : Result Cell → Result JsonValue → Type 0
Agrees (ok c) (ok v) = Stands c v
Agrees (fail e) (fail f) = e ≡ f
Agrees _ _ = ⊥

pub Agrees-ok :
    (r : Result Cell) (v : JsonValue) → Agrees r (ok v) → (c : Cell) × (r ≡ ok c) × Stands c v
Agrees-ok (ok c) v h = (c, refl, h)
Agrees-ok (fail e) v h = absurd h

pub make_lem :
    (k : Kind) (t : Carrier k) (c : Cell) → IsClean c → Stands (make k t c) (of_payload k t)
unfolding make disc_of object_of of_payload type_of
make_lem bool_kind t c h = record {
  typed = refl;
  held = refl;
  unleaked = omega (arith, h.unowned, h.unleaked);
}
make_lem int_kind t c h = record {
  typed = refl;
  held = refl;
  unleaked = omega (arith, h.unowned, h.unleaked);
}
make_lem double_kind t c h = record {
  typed = refl;
  held = refl;
  unleaked = omega (arith, h.unowned, h.unleaked);
}
make_lem str_kind t c h = record {
  typed = refl;
  held = refl;
  unleaked = omega (arith, h.unowned, h.unleaked);
}
make_lem big_int_kind t c h = record {
  typed = refl;
  held = refl;
  unleaked = omega (arith, h.unowned, h.unleaked);
}
make_lem submap_kind t c h = record {
  typed = refl;
  held = refl;
  unleaked = omega (arith, h.unowned, h.unleaked);
}
make_lem sublist_kind t c h = record {
  typed = refl;
  held = refl;
  unleaked = omega (arith, h.unowned, h.unleaked);
}
make_lem graft_kind t c h = record {
  typed = refl;
  held = refl;
  unleaked = omega (arith, h.unowned, h.unleaked);
}

clear_from :
    (c : Cell) (v : JsonValue)
    → Stands c v
    → Agrees (destroy_content (type_of v) c >>= λ c'. ok (record c' { disc = nil_d })) (ok nil)
unfolding destroy_content destroy type_of owned
clear_from c nil h = (record { typed = refl; held = h.held; unleaked = h.unleaked })
clear_from c (bool b) h = (record { typed = refl; held = ap owned h.held; unleaked = h.unleaked })
clear_from c (int i) h = (record { typed = refl; held = ap owned h.held; unleaked = h.unleaked })
clear_from c (double d) h = (record { typed = refl; held = ap owned h.held; unleaked = h.unleaked })
clear_from c (str s) h =
    rw (get_payload_lem str_kind c (str s) h)
      (unfold get_str in record { typed = refl; held = refl; unleaked = h.unleaked })
clear_from c (big_int s) h =
    rw (get_payload_lem big_int_kind c (big_int s) h)
      (unfold get_big_int in record { typed = refl; held = refl; unleaked = h.unleaked })
clear_from c (submap m) h =
    rw (get_payload_lem submap_kind c (submap m) h)
      (unfold get_submap in record { typed = refl; held = refl; unleaked = h.unleaked })
clear_from c (sublist l) h =
    rw (get_payload_lem sublist_kind c (sublist l) h)
      (unfold get_sublist in record { typed = refl; held = refl; unleaked = h.unleaked })
clear_from c (graft g) h =
    rw (get_payload_lem graft_kind c (graft g) h)
      (unfold get_graft in record { typed = refl; held = refl; unleaked = h.unleaked })

-- clear, and the destructor.
pub clear_cell_lem : (c : Cell) (v : JsonValue) → Stands c v → Agrees (clear_cell c) (ok nil)
unfolding clear_cell
clear_cell_lem c v h =
    subst (λ d. Agrees (destroy_content d c >>= λ c'. ok (record c' { disc = nil_d })) (ok nil))
      (sym h.typed) (clear_from c v h)

pub clean_lem : (c : Cell) → Stands c nil → IsClean c
clean_lem c h = record { unowned = h.held; unleaked = h.unleaked }

assign_from_type :
    (other c : Cell) (w : JsonValue)
    → Stands other w
    → IsClean c
    → Agrees
        (copy_content (type_of w) other c >>= λ c'.
          (assert (same_disc c'.disc (type_of w)) >> ok c'))
        (ok w)
unfolding copy_content copy_payload type_of same_disc make disc_of
assign_from_type other c nil h e = (record {
  typed = refl;
  held = e.unowned;
  unleaked = e.unleaked;
})
assign_from_type other c (bool b) h e =
    rw (get_payload_lem bool_kind other (bool b) h)
      (unfold get_bool of_payload in make_lem bool_kind b c e)
assign_from_type other c (int i) h e =
    rw (get_payload_lem int_kind other (int i) h)
      (unfold get_int of_payload in make_lem int_kind i c e)
assign_from_type other c (double d) h e =
    rw (get_payload_lem double_kind other (double d) h)
      (unfold get_double of_payload in make_lem double_kind d c e)
assign_from_type other c (str s) h e =
    rw (get_payload_lem str_kind other (str s) h)
      (unfold get_str of_payload in make_lem str_kind s c e)
assign_from_type other c (big_int s) h e =
    rw (get_payload_lem big_int_kind other (big_int s) h)
      (unfold get_big_int of_payload in make_lem big_int_kind s c e)
assign_from_type other c (submap m) h e =
    rw (get_payload_lem submap_kind other (submap m) h)
      (unfold get_submap of_payload in make_lem submap_kind m c e)
assign_from_type other c (sublist l) h e =
    rw (get_payload_lem sublist_kind other (sublist l) h)
      (unfold get_sublist of_payload in make_lem sublist_kind l c e)
assign_from_type other c (graft g) h e =
    rw (get_payload_lem graft_kind other (graft g) h)
      (unfold get_graft of_payload in make_lem graft_kind g c e)

-- assign(const json_value &)
pub assign_lem :
    (other c : Cell) (w : JsonValue) → Stands other w → IsClean c → Agrees (assign other c) (ok w)
unfolding assign
assign_lem other c w h e =
    subst
      (λ d.
        Agrees (copy_content d other c >>= λ c'. (assert (same_disc c'.disc d) >> ok c')) (ok w))
      (sym h.typed) (assign_from_type other c w h e)
