-- ===== src/Json/Cell.antt =====
-- json_value as it lies in memory: a discriminator and a storage in which an object of the
-- discriminator's type lives (libsofadb/native_json.h). The elements of a container are values.
pub mod Assign
pub mod Visit
pub mod Stands
pub mod Refines
pub mod Changes
pub mod Made
pub mod Setters
pub mod Moves
use sofa_db.Prelude.{ℕ, ◌+◌, Bool, true, false, [], Option, none, some, ◌==◌, if◌then◌else◌}
use sofa_db.Prelude.Int.{ℤ, pos}
use sofa_db.Text.{Bytes}
use sofa_db.Failure.{Result, ok, fail, bad_cast, undefined, ◌>>=◌, ◌>>◌, assert}
use sofa_db.Json.Value.{
  JsonDisc, nil_d, bool_d, int_d, double_d, string_d, big_int_d, submap_d, sublist_d, graft_d,
  disc_value, JsonValue, nil, Items, Fields, no_items, no_fields,
}

-- What lives in the storage: no object, an object of one of the types of STD_FUNCS, or the int of
-- four bytes that json_value(json_disc) makes. A trivial object may be left behind by a type that
-- the discriminator no longer names.
pub data Object : Type 0 where
  no_object small_int : Object
  a_bool : Bool → Object
  an_int : ℤ → Object
  a_double : ℕ → Object
  a_str : Bytes → Object
  a_big_int : Bytes → Object
  a_submap : Fields → Object
  a_sublist : Items → Object
  a_graft : JsonValue → Object

-- disc_ and storage_, and how many objects with a destructor were overwritten without its call.
pub record Cell : Type 0 where
  pub disc : JsonDisc
  pub object : Object
  pub leaks : ℕ

-- The template parameters T and D of get, as and make.
pub data Kind : Type 0 where
  bool_kind int_kind double_kind str_kind big_int_kind submap_kind sublist_kind graft_kind : Kind

abbrev pub Carrier : Kind → Type 0
Carrier bool_kind = Bool
Carrier int_kind = ℤ
Carrier double_kind = ℕ
Carrier str_kind = Bytes
Carrier big_int_kind = Bytes
Carrier submap_kind = Fields
Carrier sublist_kind = Items
Carrier graft_kind = JsonValue

unfoldable pub disc_of : Kind → JsonDisc
disc_of bool_kind = bool_d
disc_of int_kind = int_d
disc_of double_kind = double_d
disc_of str_kind = string_d
disc_of big_int_kind = big_int_d
disc_of submap_kind = submap_d
disc_of sublist_kind = sublist_d
disc_of graft_kind = graft_d

unfoldable pub object_of : (k : Kind) → Carrier k → Object
object_of bool_kind b = a_bool b
object_of int_kind i = an_int i
object_of double_kind d = a_double d
object_of str_kind s = a_str s
object_of big_int_kind s = a_big_int s
object_of submap_kind m = a_submap m
object_of sublist_kind l = a_sublist l
object_of graft_kind g = a_graft g

-- The storage read as a T: undefined where no T lives in it.
unfoldable pub read_as : (k : Kind) → Object → Result (Carrier k)
read_as bool_kind (a_bool b) = ok b
read_as int_kind (an_int i) = ok i
read_as double_kind (a_double d) = ok d
read_as str_kind (a_str s) = ok s
read_as big_int_kind (a_big_int s) = ok s
read_as submap_kind (a_submap m) = ok m
read_as sublist_kind (a_sublist l) = ok l
read_as graft_kind (a_graft g) = ok g
read_as _ _ = fail undefined

-- T()
unfoldable pub initial : (k : Kind) → Carrier k
initial bool_kind = false
initial int_kind = pos 0
initial double_kind = 0
initial str_kind = []
initial big_int_kind = []
initial submap_kind = no_fields
initial sublist_kind = no_items
initial graft_kind = nil

-- What a T holds after it was moved from: a graft is copied.
unfoldable pub rest : (k : Kind) → Carrier k → Carrier k
rest str_kind s = []
rest big_int_kind s = []
rest submap_kind m = no_fields
rest sublist_kind l = no_items
rest bool_kind b = b
rest int_kind i = i
rest double_kind d = d
rest graft_kind g = g

-- How many destructors the object wants: one, or none.
unfoldable pub owned : Object → ℕ
owned (a_str s) = 1
owned (a_big_int s) = 1
owned (a_submap m) = 1
owned (a_sublist l) = 1
owned (a_graft g) = 1
owned _ = 0

-- disc_ == D
unfoldable pub same_disc : JsonDisc → JsonDisc → Bool
unfolding disc_value
same_disc d e = disc_value d == disc_value e

-- get<T, D>
unfoldable pub get_payload : (k : Kind) → Cell → Result (Carrier k)
unfolding same_disc disc_of read_as
get_payload k c = if same_disc c.disc (disc_of k) then read_as k c.object else fail bad_cast

-- make<T, D>: a placement new, whatever lived in the storage.
unfoldable pub make : (k : Kind) → Carrier k → Cell → Cell
unfolding disc_of object_of owned
make k t c = record { disc = disc_of k; object = object_of k t; leaks = c.leaks + owned c.object }

-- as<T, D>: the value, and the payload that the reference returned is to.
unfoldable pub as_payload : (k : Kind) → Cell → Result (Cell × Carrier k)
unfolding same_disc disc_of read_as make initial
as_payload k c =
    if same_disc c.disc (disc_of k)
    then (read_as k c.object >>= λ t. ok (c, t))
    else (assert (same_disc c.disc nil_d) >> ok (make k (initial k) c, initial k))

-- get().~T()
unfoldable pub destroy : Kind → Cell → Result Cell
unfolding get_payload
destroy k c = get_payload k c >>= λ t. ok (record c { object = no_object })

-- The switch of clear.
unfoldable pub destroy_content : JsonDisc → Cell → Result Cell
unfolding destroy
destroy_content string_d c = destroy str_kind c
destroy_content big_int_d c = destroy big_int_kind c
destroy_content submap_d c = destroy submap_kind c
destroy_content sublist_d c = destroy sublist_kind c
destroy_content graft_d c = destroy graft_kind c
destroy_content _ c = ok c

-- clear, which is the destructor too
unfoldable pub clear_cell : Cell → Result Cell
unfolding destroy_content
clear_cell c = destroy_content c.disc c >>= λ c'. ok (record c' { disc = nil_d })

-- set_*(const type &): an assignment to the payload.
unfoldable pub set_payload : (k : Kind) → Carrier k → Cell → Result Cell
unfolding as_payload object_of
set_payload k t c = as_payload k c >>= λ found. ok (record found.0 { object = object_of k t })

-- set_*(type &&)
unfoldable pub set_moved : (k : Kind) → Carrier k → Cell → Result Cell
unfolding clear_cell make
set_moved k t c = clear_cell c >>= λ c'. ok (make k t c')

-- json_value(), and the storage before a constructor: its discriminator is not determined.
abbrev pub empty_cell : Cell
empty_cell = record { disc = nil_d; object = no_object; leaks = 0 }

abbrev pub fresh : JsonDisc → Cell
fresh stale = record { disc = stale; object = no_object; leaks = 0 }

-- json_value(const type &) and json_value(type &&)
unfoldable pub construct : (k : Kind) → Carrier k → Cell
unfolding make
construct k t = make k t empty_cell
