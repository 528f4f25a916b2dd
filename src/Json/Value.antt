-- ===== src/Json/Value.antt =====
-- json_value, its discriminator and its containers (libsofadb/native_json.h).
use sofa_db.Prelude.{
  ℕ, ◌-◌, ◌*◌, ◌%◌, ◌^◌, Bool, false, ◌&&◌, ◌||◌, not, [], ltb, ◌==◌, if◌then◌else◌,
}
use sofa_db.Prelude.Int.{ℤ, pos, negsuc}
use sofa_db.Text.{Bytes}

-- json_disc
pub data JsonDisc : Type 0 where
  nil_d bool_d int_d double_d string_d big_int_d submap_d sublist_d graft_d : JsonDisc

-- The position in the enumeration.
unfoldable pub disc_value : JsonDisc → ℕ
disc_value nil_d = 0
disc_value bool_d = 1
disc_value int_d = 2
disc_value double_d = 3
disc_value string_d = 4
disc_value big_int_d = 5
disc_value submap_d = 6
disc_value sublist_d = 7
disc_value graft_d = 8

-- A double is its IEEE 754 bit pattern, a big integer its text. A graft points at a value that
-- it does not change. `Items` is sublist_t, and `Fields` is submap_t, a std::map, with its entries
-- in the order of their keys.
mutual
  pub data JsonValue : Type 0 where
    nil : JsonValue
    bool : Bool → JsonValue
    int : ℤ → JsonValue
    double : ℕ → JsonValue
    str : Bytes → JsonValue
    big_int : Bytes → JsonValue
    submap : Fields → JsonValue
    sublist : Items → JsonValue
    graft : JsonValue → JsonValue

  pub data Items : Type 0 where
    no_items : Items
    item : JsonValue → Items → Items

  pub data Fields : Type 0 where
    no_fields : Fields
    field : Bytes → JsonValue → Fields → Fields

-- json_value::type
unfoldable pub type_of : JsonValue → JsonDisc
type_of nil = nil_d
type_of (bool b) = bool_d
type_of (int i) = int_d
type_of (double d) = double_d
type_of (str s) = string_d
type_of (big_int s) = big_int_d
type_of (submap m) = submap_d
type_of (sublist l) = sublist_d
type_of (graft g) = graft_d

-- The number that a 64-bit pattern stands for.
unfoldable pub signed64 : ℕ → ℤ
signed64 w = if ltb w (2 ^ 63) then pos w else negsuc (2 ^ 64 - w - 1)

-- json_value(json_disc): an `int` of four bytes is made in the place of an int64_t, so the upper
-- four bytes are what stood in the storage before, here `stale`.
unfoldable pub of_disc : ℕ → JsonDisc → JsonValue
unfolding signed64
of_disc stale nil_d = nil
of_disc stale bool_d = bool false
of_disc stale int_d = int (signed64 (stale % 2 ^ 32 * 2 ^ 32))
of_disc stale double_d = double 0
of_disc stale string_d = str []
of_disc stale big_int_d = big_int []
of_disc stale submap_d = submap no_fields
of_disc stale sublist_d = sublist no_items
of_disc stale graft_d = graft nil

-- assign(json_value &&): what the source holds after its content has been moved out. A moved
-- container or text is empty; the other payloads are copied.
unfoldable pub moved_from : JsonValue → JsonValue
moved_from (str s) = str []
moved_from (big_int s) = big_int []
moved_from (submap m) = submap no_fields
moved_from (sublist l) = sublist no_items
moved_from v = v

abbrev magnitude : ℕ → ℕ
magnitude d = d % 2 ^ 63

unfoldable pub is_nan : ℕ → Bool
is_nan d = ltb (2047 * 2 ^ 52) (magnitude d)

-- == and < on doubles: no NaN is equal to or less than anything, and the two zeros are equal.
unfoldable pub double_eq : ℕ → ℕ → Bool
unfolding is_nan
double_eq a b =
    not (is_nan a) && not (is_nan b) && (a == b || (magnitude a == 0 && magnitude b == 0))

unfoldable pub double_lt : ℕ → ℕ → Bool
unfolding is_nan
double_lt a b =
    not (is_nan a)
    && not (is_nan b)
    && (if ltb a (2 ^ 63)
        then ltb b (2 ^ 63) && ltb a b
        else if ltb b (2 ^ 63)
        then not (magnitude a == 0 && b == 0)
        else ltb (magnitude b) (magnitude a))
