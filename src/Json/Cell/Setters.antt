-- ===== src/Json/Cell/Setters.antt =====
-- as_* and the setters of a json_value in memory.
use mathlib.Core.Path.{subst}
use sofa_db.Prelude.{true, false, ◌≡◌, refl, ap, ◌∙◌, inl, inr, Bool-cases, if◌then◌else◌, arith}
use sofa_db.Failure.{Result, ok, fail, ◌>>=◌, ◌>>◌, assert}
use sofa_db.Json.Value.{
  nil_d, JsonValue, nil, bool, int, double, str, big_int, submap, sublist, graft, type_of,
}
use sofa_db.Json.Cell.{
  Object, Cell, Kind, bool_kind, int_kind, double_kind, str_kind, big_int_kind, submap_kind,
  sublist_kind, graft_kind, Carrier, disc_of, object_of, read_as, initial, same_disc, make,
  as_payload, set_payload, set_moved, clear_cell,
}
use sofa_db.Json.Cell.Stands.{Stands, Holds, of_payload}
use sofa_db.Json.Cell.Refines.{Agrees, Agrees-ok, make_lem, clear_cell_lem, clean_lem}

typed_value :
    (k : Kind) (v : JsonValue)
    → same_disc (type_of v) (disc_of k) ≡ true
    → (t : Carrier k) × (v ≡ of_payload k t)
unfolding same_disc disc_of type_of of_payload
typed_value bool_kind (bool b) h = (b, refl)
typed_value bool_kind _ h = absurd (ground (arith, h))
typed_value int_kind (int i) h = (i, refl)
typed_value int_kind _ h = absurd (ground (arith, h))
typed_value double_kind (double d) h = (d, refl)
typed_value double_kind _ h = absurd (ground (arith, h))
typed_value str_kind (str s) h = (s, refl)
typed_value str_kind _ h = absurd (ground (arith, h))
typed_value big_int_kind (big_int s) h = (s, refl)
typed_value big_int_kind _ h = absurd (ground (arith, h))
typed_value submap_kind (submap m) h = (m, refl)
typed_value submap_kind _ h = absurd (ground (arith, h))
typed_value sublist_kind (sublist l) h = (l, refl)
typed_value sublist_kind _ h = absurd (ground (arith, h))
typed_value graft_kind (graft g) h = (g, refl)
typed_value graft_kind _ h = absurd (ground (arith, h))

nil_value : (v : JsonValue) → same_disc (type_of v) nil_d ≡ true → v ≡ nil
unfolding same_disc type_of
nil_value nil h = refl
nil_value _ h = absurd (ground (arith, h))

read_value : (k : Kind) (t : Carrier k) (o : Object) → Holds (of_payload k t) o → read_as k o ≡ ok t
unfolding read_as of_payload
read_value bool_kind t o h = rw h refl
read_value int_kind t o h = rw h refl
read_value double_kind t o h = rw h refl
read_value str_kind t o h = rw h refl
read_value big_int_kind t o h = rw h refl
read_value submap_kind t o h = rw h refl
read_value sublist_kind t o h = rw h refl
read_value graft_kind t o h = rw h refl

type_of-of_payload : (k : Kind) (t : Carrier k) → type_of (of_payload k t) ≡ disc_of k
unfolding type_of of_payload disc_of
type_of-of_payload bool_kind t = refl
type_of-of_payload int_kind t = refl
type_of-of_payload double_kind t = refl
type_of-of_payload str_kind t = refl
type_of-of_payload big_int_kind t = refl
type_of-of_payload submap_kind t = refl
type_of-of_payload sublist_kind t = refl
type_of-of_payload graft_kind t = refl

set-Stands :
    (k : Kind) (t : Carrier k) (c : Cell)
    → c.disc ≡ disc_of k
    → c.leaks ≡ 0
    → Stands (record c { object = object_of k t }) (of_payload k t)
unfolding of_payload disc_of object_of type_of
set-Stands bool_kind t c h e = record { typed = h; held = refl; unleaked = e }
set-Stands int_kind t c h e = record { typed = h; held = refl; unleaked = e }
set-Stands double_kind t c h e = record { typed = h; held = refl; unleaked = e }
set-Stands str_kind t c h e = record { typed = h; held = refl; unleaked = e }
set-Stands big_int_kind t c h e = record { typed = h; held = refl; unleaked = e }
set-Stands submap_kind t c h e = record { typed = h; held = refl; unleaked = e }
set-Stands sublist_kind t c h e = record { typed = h; held = refl; unleaked = e }
set-Stands graft_kind t c h e = record { typed = h; held = refl; unleaked = e }

-- as_*() on a value: what it becomes.
unfoldable pub ready : Kind → JsonValue → Result JsonValue
ready k v =
    if same_disc (type_of v) (disc_of k)
    then ok v
    else (assert (same_disc (type_of v) nil_d) >> ok (of_payload k (initial k)))

-- What as_*() leaves, and the payload it returns.
abbrev pub AgreesAs : (k : Kind) → Result (Cell × Carrier k) → Result JsonValue → Type 0
AgreesAs k (ok (c, t)) (ok v) = Stands c v × ((c.disc ≡ disc_of k) × (v ≡ of_payload k t))
AgreesAs k (fail e) (fail f) = e ≡ f
AgreesAs k _ _ = ⊥

pub as_payload_lem :
    (k : Kind) (c : Cell) (v : JsonValue) → Stands c v → AgreesAs k (as_payload k c) (ready k v)
unfolding as_payload ready
as_payload_lem k c v h = elim (Bool-cases (same_disc (type_of v) (disc_of k))) [
  | inl same ↦
      let (t, e) = typed_value k v same in
      let at_disc : same_disc c.disc (disc_of k) ≡ true =
        ap (λ d. same_disc d (disc_of k)) h.typed ∙ same in
      let found = read_value k t c.object (subst (λ u. Holds u c.object) e h.held) in
      rw (at_disc, same, found) (h, (h.typed ∙ ap type_of e ∙ type_of-of_payload k t, e))
  | inr other ↦
      let off_disc : same_disc c.disc (disc_of k) ≡ false =
        ap (λ d. same_disc d (disc_of k)) h.typed ∙ other in
      let at_nil : same_disc c.disc nil_d ≡ same_disc (type_of v) nil_d =
        ap (λ d. same_disc d nil_d) h.typed in
      rw (off_disc, other, at_nil)
        (elim (Bool-cases (same_disc (type_of v) nil_d)) [
          | inl bare ↦
              let clean = clean_lem c (subst (λ u. Stands c u) (nil_value v bare) h) in
              rw bare (make_lem k (initial k) c clean, (unfold make in refl, refl))
          | inr filled ↦ rw filled refl
        ])
]

set_ready :
    (k : Kind) (t : Carrier k) (r : Result (Cell × Carrier k)) (v : Result JsonValue)
    → AgreesAs k r v
    → Agrees
        (r >>= λ found. ok (record found.0 { object = object_of k t }))
        (v >>= λ u. ok (of_payload k t))
set_ready k t (ok (c, s)) (ok v) h = set-Stands k t c h.1.0 h.0.unleaked
set_ready k t (fail e) (fail f) h = h
set_ready k t (ok (c, s)) (fail f) h = absurd h
set_ready k t (fail e) (ok v) h = absurd h

-- set_*(const type &)
pub set_payload_lem :
    (k : Kind) (t : Carrier k) (c : Cell) (v : JsonValue)
    → Stands c v
    → Agrees (set_payload k t c) (ready k v >>= λ u. ok (of_payload k t))
unfolding set_payload
set_payload_lem k t c v h = set_ready k t (as_payload k c) (ready k v) (as_payload_lem k c v h)

-- set_*(type &&)
pub set_moved_lem :
    (k : Kind) (t : Carrier k) (c : Cell) (v : JsonValue)
    → Stands c v
    → Agrees (set_moved k t c) (ok (of_payload k t))
unfolding set_moved
set_moved_lem k t c v h =
    let (c', e, s) = Agrees-ok (clear_cell c) nil (clear_cell_lem c v h) in
    rw e (make_lem k t c' (clean_lem c' s))
