-- ===== src/Database.antt =====
-- Database: libsofadb/database.h and database.cpp.
pub mod Put
pub mod Get
pub mod Paths
use sofa_db.Prelude.{
  ℕ, zero, suc, ◌+◌, ◌*◌, ◌/◌, ◌%◌, ◌^◌, Bool, true, false, not, ◌&&◌, ◌||◌, List, [], ◌∷◌, ◌++◌,
  Option, none, some, get_elem?, take, ◌==◌, if◌then◌else◌,
}
use sofa_db.Prelude.Int.{ℤ, pos, eqb_ℤ}
use sofa_db.Text.{Bytes, bytes_eq}
use sofa_db.Failure.{Result, ok, fail, out_of_range, ◌>>=◌, ◌>>◌, assert, err, s_error}
use sofa_db.Json.Value.{
  JsonValue, Items, Fields, nil, bool, int, str, submap, sublist, no_items, no_fields, field,
  moved_from,
}
use sofa_db.Json.Access.{get_bool, get_int, get_str, get_submap, get_sublist}
use sofa_db.Json.Compare.{json_eq}
use sofa_db.Json.Containers.{at_index, index_key, assign_key}
use sofa_db.Json.Text.{string_to_json, json_to_string}
use sofa_db.Json.Text.Stream.{
  JsonStream, make_stream, write_null, write_bool, write_string, write_json, start_list, end_list,
}
use sofa_db.Revision.{Revision, empty_revision, is_empty, make_revision, parse_revision}
use sofa_db.Revlog.{init_log, add_rev_info, top_quad, top_rev_id}
use sofa_db.Conflict.{merge}
use sofa_db.Storage.{Storage}
use sofa_db.Externals.{Externals}

pub record Database : Type 0 where
  pub closed : Bool
  pub name : Bytes
  pub meta : JsonValue

-- operator==
unfoldable pub database_eq : Database → Database → Result Bool
unfolding json_eq
database_eq l r = json_eq r.meta l.meta

-- "instance_start_time" and "db_name"
abbrev pub instance_start_time : Bytes
instance_start_time =
    b'i' ∷ b'n' ∷ b's' ∷ b't' ∷ b'a' ∷ b'n' ∷ b'c' ∷ b'e' ∷ b'_' ∷ b's' ∷ b't' ∷ b'a' ∷ b'r' ∷ b't'
    ∷ b'_' ∷ b't' ∷ b'i' ∷ b'm' ∷ b'e' ∷ []

abbrev pub db_name : Bytes
db_name = b'd' ∷ b'b' ∷ b'_' ∷ b'n' ∷ b'a' ∷ b'm' ∷ b'e' ∷ []

-- Database(name), at the time `now` in seconds.
unfoldable pub new_database : ℕ → Bytes → Result Database
unfolding assign_key
new_database now name = do
  timed ← assign_key (submap no_fields) instance_start_time (int (pos (now * 100000)))
  meta ← assign_key timed db_name (str name)
  ok (record { closed = false; name = name; meta = meta })

-- Database(meta)
unfoldable pub load_database : JsonValue → Result Database
unfolding index_key get_str
load_database meta = do
  found ← index_key meta db_name
  name ← get_str found.0
  ok (record { closed = false; name = name; meta = found.1 })

-- "Database " and " is closed"
abbrev pub closed_text : Bytes → Bytes
closed_text name =
    b'D'
    ∷ b'a'
    ∷ b't'
    ∷ b'a'
    ∷ b'b'
    ∷ b'a'
    ∷ b's'
    ∷ b'e'
    ∷ b' '
    ∷ (name ++ (b' ' ∷ b'i' ∷ b's' ∷ b' ' ∷ b'c' ∷ b'l' ∷ b'o' ∷ b's' ∷ b'e' ∷ b'd' ∷ []))

-- check_closed
unfoldable pub check_closed : Database → Result (Unit {0})
check_closed db = if db.closed then err s_error (closed_text db.name) else ok tt

-- The loop of sanitize_and_get_reserved_words, with the maps filled so far.
unfoldable pub sort_words : Fields → JsonValue → JsonValue → Result (JsonValue × JsonValue)
unfolding assign_key
sort_words no_fields sanitized special = ok (sanitized, special)
sort_words (field [] v m) sanitized special = fail out_of_range
sort_words (field (c ∷ k) v m) sanitized special =
    (if c == b'_' then assign_key special (c ∷ k) v else assign_key sanitized (c ∷ k) v)
    >>= λ filled. if c == b'_' then sort_words m sanitized filled else sort_words m filled special

-- sanitize_and_get_reserved_words
unfoldable pub sanitize_and_get_reserved_words : JsonValue → Result (JsonValue × JsonValue)
unfolding sort_words get_submap
sanitize_and_get_reserved_words tp = do
  m ← get_submap tp
  sort_words m (submap no_fields) (submap no_fields)

-- make_path. The first two literals are appended with their terminating NUL, the last without.
unfoldable pub make_path : Database → Bytes → Bytes
make_path db id =
    (b'_' ∷ b'd' ∷ b'a' ∷ b't' ∷ b'a' ∷ b'/' ∷ 0 ∷ [])
    ++ (db.name ++ ((b'!' ∷ 0 ∷ []) ++ (id ++ (b'@' ∷ []))))

-- alphabet[n]
abbrev pub alphabet : Bytes
alphabet =
    b'0' ∷ b'1' ∷ b'2' ∷ b'3' ∷ b'4' ∷ b'5' ∷ b'6' ∷ b'7' ∷ b'8' ∷ b'9' ∷ b'a' ∷ b'b' ∷ b'c' ∷ b'd'
    ∷ b'e' ∷ b'f' ∷ []

unfoldable pub hex_digit : ℕ → ℕ
hex_digit n = elim (get_elem? alphabet n) [ none ↦ 0 | some c ↦ c ]

unfoldable pub hex_text : Bytes → Bytes
hex_text [] = []
hex_text (b ∷ s) = hex_digit (b / 16) ∷ (hex_digit (b % 16) ∷ hex_text s)

-- update_status_e
pub data UpdateStatus : Type 0 where
  update_ok update_conflict update_conflict_won update_conflict_lost : UpdateStatus

-- put_result_t
pub record PutResult : Type 0 where
  pub code : UpdateStatus
  pub assigned_rev : Revision
  pub rev_log : JsonValue

-- revision_t, without its attachments, which no function fills.
pub record RevisionInfo : Type 0 where
  pub id : Bytes
  pub deleted : Bool
  pub previous_rev : Revision
  pub rev : Revision
