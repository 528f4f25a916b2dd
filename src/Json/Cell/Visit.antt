-- ===== src/Json/Cell/Visit.antt =====
-- apply_visitor (libsofadb/native_json.h).
use sofa_db.Prelude.{ℕ, Bool}
use sofa_db.Prelude.Int.{ℤ}
use sofa_db.Text.{Bytes}
use sofa_db.Failure.{Result, ok, ◌>>=◌}
use sofa_db.Json.Value.{
  JsonDisc, nil_d, bool_d, int_d, double_d, string_d, big_int_d, submap_d, sublist_d, graft_d,
  JsonValue, Items, Fields,
}
use sofa_db.Json.Cell.{
  Cell, bool_kind, int_kind, double_kind, str_kind, big_int_kind, submap_kind, sublist_kind,
  graft_kind, get_payload,
}

-- The operator() of a visitor, for each type.
pub record Visitor (R : Type 0) : Type 0 where
  pub on_nil : R
  pub on_bool : Bool → R
  pub on_int : ℤ → R
  pub on_double : ℕ → R
  pub on_str : Bytes → R
  pub on_big_int : Bytes → R
  pub on_submap : Fields → R
  pub on_sublist : Items → R
  pub on_graft : JsonValue → R

module _ {R : Type 0} (vis : Visitor R) where
  -- The branch for a discriminator.
  unfoldable pub visit_as : JsonDisc → Cell → Result R
  unfolding get_payload
  visit_as nil_d c = ok vis.on_nil
  visit_as bool_d c = get_payload bool_kind c >>= λ b. ok (vis.on_bool b)
  visit_as int_d c = get_payload int_kind c >>= λ i. ok (vis.on_int i)
  visit_as double_d c = get_payload double_kind c >>= λ d. ok (vis.on_double d)
  visit_as string_d c = get_payload str_kind c >>= λ s. ok (vis.on_str s)
  visit_as big_int_d c = get_payload big_int_kind c >>= λ s. ok (vis.on_big_int s)
  visit_as submap_d c = get_payload submap_kind c >>= λ m. ok (vis.on_submap m)
  visit_as sublist_d c = get_payload sublist_kind c >>= λ l. ok (vis.on_sublist l)
  visit_as graft_d c = get_payload graft_kind c >>= λ g. ok (vis.on_graft g)

  -- apply_visitor
  unfoldable pub apply_visitor : Cell → Result R
  unfolding visit_as
  apply_visitor c = visit_as c.disc c
