-- ===== src/Json/Access.antt =====
-- The typed accessors that STD_FUNCS generates, get<T, D>, as<T, D> and the setters
-- (libsofadb/native_json.h).
use sofa_db.Prelude.{ℕ, Bool, false, []}
use sofa_db.Prelude.Int.{ℤ, pos}
use sofa_db.Text.{Bytes}
use sofa_db.Failure.{Result, ok, fail, bad_cast, assertion, ◌>>=◌}
use sofa_db.Json.Value.{
  JsonValue, Items, Fields, nil, bool, int, double, str, big_int, submap, sublist, graft, no_items,
  no_fields,
}

-- get<T, D>: the payload, or bad_cast.
unfoldable pub get_bool : JsonValue → Result Bool
get_bool (bool b) = ok b
get_bool v = fail bad_cast

unfoldable pub get_int : JsonValue → Result ℤ
get_int (int i) = ok i
get_int v = fail bad_cast

unfoldable pub get_double : JsonValue → Result ℕ
get_double (double d) = ok d
get_double v = fail bad_cast

unfoldable pub get_str : JsonValue → Result Bytes
get_str (str s) = ok s
get_str v = fail bad_cast

unfoldable pub get_big_int : JsonValue → Result Bytes
get_big_int (big_int s) = ok s
get_big_int v = fail bad_cast

unfoldable pub get_submap : JsonValue → Result Fields
get_submap (submap m) = ok m
get_submap v = fail bad_cast

unfoldable pub get_sublist : JsonValue → Result Items
get_sublist (sublist l) = ok l
get_sublist v = fail bad_cast

unfoldable pub get_graft : JsonValue → Result JsonValue
get_graft (graft g) = ok g
get_graft v = fail bad_cast

-- as<T, D>: the payload, made first in a nil value; any other type fails the assertion.
unfoldable pub as_bool : JsonValue → Result Bool
as_bool nil = ok false
as_bool (bool b) = ok b
as_bool v = fail assertion

unfoldable pub as_int : JsonValue → Result ℤ
as_int nil = ok (pos 0)
as_int (int i) = ok i
as_int v = fail assertion

unfoldable pub as_double : JsonValue → Result ℕ
as_double nil = ok 0
as_double (double d) = ok d
as_double v = fail assertion

unfoldable pub as_str : JsonValue → Result Bytes
as_str nil = ok []
as_str (str s) = ok s
as_str v = fail assertion

unfoldable pub as_big_int : JsonValue → Result Bytes
as_big_int nil = ok []
as_big_int (big_int s) = ok s
as_big_int v = fail assertion

unfoldable pub as_submap : JsonValue → Result Fields
as_submap nil = ok no_fields
as_submap (submap m) = ok m
as_submap v = fail assertion

unfoldable pub as_sublist : JsonValue → Result Items
as_sublist nil = ok no_items
as_sublist (sublist l) = ok l
as_sublist v = fail assertion

unfoldable pub as_graft : JsonValue → Result JsonValue
as_graft nil = ok nil
as_graft (graft g) = ok g
as_graft v = fail assertion

-- set_int(const int64_t &), `as<T, D>() = val`.
unfoldable pub set_int : JsonValue → ℤ → Result JsonValue
unfolding as_int
set_int v i = as_int v >>= λ _. ok (int i)

-- clear: the content is destroyed and a nil value is left.
unfoldable pub clear : JsonValue → JsonValue
clear v = nil
