-- ===== src/Json/Cell/Stands.antt =====
-- The value that a json_value in memory stands for, and its accessors.
use sofa_db.Prelude.{◌≡◌, refl, if◌then◌else◌}
use sofa_db.Failure.{Result, fail, bad_cast}
use sofa_db.Json.Value.{
  JsonValue, nil, bool, int, double, str, big_int, submap, sublist, graft, type_of,
}
use sofa_db.Json.Access.{
  get_bool, get_int, get_double, get_str, get_big_int, get_submap, get_sublist, get_graft,
}
use sofa_db.Json.Cell.{
  Object, a_bool, an_int, a_double, a_str, a_big_int, a_submap, a_sublist, a_graft, Cell, Kind,
  bool_kind, int_kind, double_kind, str_kind, big_int_kind, submap_kind, sublist_kind, graft_kind,
  Carrier, disc_of, read_as, owned, same_disc, get_payload,
}

-- The value of a payload.
unfoldable pub of_payload : (k : Kind) → Carrier k → JsonValue
of_payload bool_kind b = bool b
of_payload int_kind i = int i
of_payload double_kind d = double d
of_payload str_kind s = str s
of_payload big_int_kind s = big_int s
of_payload submap_kind m = submap m
of_payload sublist_kind l = sublist l
of_payload graft_kind g = graft g

-- The object that a value wants. A nil value wants none, and may have a trivial one left over.
abbrev pub Holds : JsonValue → Object → Type 0
Holds nil o = owned o ≡ 0
Holds (bool b) o = o ≡ a_bool b
Holds (int i) o = o ≡ an_int i
Holds (double d) o = o ≡ a_double d
Holds (str s) o = o ≡ a_str s
Holds (big_int s) o = o ≡ a_big_int s
Holds (submap m) o = o ≡ a_submap m
Holds (sublist l) o = o ≡ a_sublist l
Holds (graft g) o = o ≡ a_graft g

-- The discriminator names the type of the object that lives in the storage, and no destructor has
-- been left out.
pub record Stands (c : Cell) (v : JsonValue) : Type 0 where
  pub typed : c.disc ≡ type_of v
  pub held : Holds v c.object
  pub unleaked : c.leaks ≡ 0

-- get_* on a value.
abbrev pub payload : (k : Kind) → JsonValue → Result (Carrier k)
payload bool_kind v = get_bool v
payload int_kind v = get_int v
payload double_kind v = get_double v
payload str_kind v = get_str v
payload big_int_kind v = get_big_int v
payload submap_kind v = get_submap v
payload sublist_kind v = get_sublist v
payload graft_kind v = get_graft v

payload-read_as :
    (k : Kind) (v : JsonValue) (o : Object)
    → Holds v o
    → (if same_disc (type_of v) (disc_of k) then read_as k o else fail bad_cast) ≡ payload k v
unfolding same_disc type_of disc_of read_as get_bool get_int get_double get_str get_big_int
    get_submap get_sublist get_graft
payload-read_as bool_kind (bool b) o h = rw h refl
payload-read_as bool_kind _ o h = refl
payload-read_as int_kind (int i) o h = rw h refl
payload-read_as int_kind _ o h = refl
payload-read_as double_kind (double d) o h = rw h refl
payload-read_as double_kind _ o h = refl
payload-read_as str_kind (str s) o h = rw h refl
payload-read_as str_kind _ o h = refl
payload-read_as big_int_kind (big_int s) o h = rw h refl
payload-read_as big_int_kind _ o h = refl
payload-read_as submap_kind (submap m) o h = rw h refl
payload-read_as submap_kind _ o h = refl
payload-read_as sublist_kind (sublist l) o h = rw h refl
payload-read_as sublist_kind _ o h = refl
payload-read_as graft_kind (graft g) o h = rw h refl
payload-read_as graft_kind _ o h = refl

-- get<T, D> on the storage is what it is on the value: the payload if the value has type T, and
-- bad_cast if it has another; no object of another type is ever read.
pub get_payload_lem :
    (k : Kind) (c : Cell) (v : JsonValue) → Stands c v → get_payload k c ≡ payload k v
unfolding get_payload
get_payload_lem k c v h = rw h.typed (payload-read_as k v c.object h.held)
