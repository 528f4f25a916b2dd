-- ===== src/Server/Commands.antt =====
-- do_document_get and do_command_put (server/server_main.cpp). The arguments of a call, which C++
-- evaluates in an order that it leaves open, are evaluated from the left.
use sofa_db.Prelude.{
  ℕ, ◌/◌, ◌%◌, Bool, false, not, [], ◌∷◌, Option, none, some, ◌==◌, if◌then◌else◌,
}
use sofa_db.Text.{Bytes, bytes_eq}
use sofa_db.Failure.{Result, ok, ◌>>=◌, ◌>>◌, err, s_error}
use sofa_db.Json.Value.{JsonValue, nil}
use sofa_db.Json.Text.{string_to_json, json_to_string}
use sofa_db.Revision.{is_empty, parse_revision}
use sofa_db.Database.{
  Database, UpdateStatus, update_ok, update_conflict, update_conflict_won, update_conflict_lost,
  RevisionInfo, PutResult,
}
use sofa_db.Database.Put.{put}
use sofa_db.Database.Get.{GetResult, Wanted, get}
use sofa_db.Engine.{LevelDb, create_storage}
use sofa_db.Externals.{Externals}
use sofa_db.Server.{Socket, read_uint32, write_uint32, read_str, write_str}

-- GetOptions: the bit of the given weight.
abbrev pub has_bit : ℕ → ℕ → Bool
has_bit params weight = (params / weight) % 2 == 1

-- params & GET_BODY, GET_REVINFO, GET_REVLOG
unfoldable pub wanted_of : ℕ → Wanted
wanted_of params = record {
  content = has_bit params 2;
  rev = has_bit params 4;
  rev_log = has_bit params 8;
}

-- "Empty document id"
abbrev pub empty_document_id : Bytes
empty_document_id =
    b'E' ∷ b'm' ∷ b'p' ∷ b't' ∷ b'y' ∷ b' ' ∷ b'd' ∷ b'o' ∷ b'c' ∷ b'u' ∷ b'm' ∷ b'e' ∷ b'n' ∷ b't'
    ∷ b' ' ∷ b'i' ∷ b'd' ∷ []

unfoldable pub read_id : Socket → Result (Bytes × Socket)
read_id sock = do
  (id, rest) ← read_str sock
  if bytes_eq id [] then err s_error empty_document_id else ok tt
  ok (id, rest)

-- What stands in an output variable of the handler that get has not written.
unfoldable pub value_of : Option JsonValue → JsonValue
value_of none = nil
value_of (some v) = v

unfoldable pub text_of : Option RevisionInfo → Bytes
text_of none = []
text_of (some r) = r.rev.stringed

-- A write under a condition.
unfoldable pub write_if : Bool → Bytes → Socket → Result Socket
write_if b s sock = if b then write_str s sock else ok sock

-- The value of an update_status_e.
unfoldable pub status_value : UpdateStatus → ℕ
status_value update_ok = 0
status_value update_conflict = 1
status_value update_conflict_won = 2
status_value update_conflict_lost = 3

module _ (x : Externals) (l : LevelDb) where
  -- The answer of do_document_get.
  unfoldable pub answer_get : Wanted → GetResult → Socket → Result Socket
  answer_get want res sock =
      if not res.found
      then ok (write_uint32 0 sock)
      else write_if want.content (json_to_string x (value_of res.content) false)
          (write_uint32 1 sock)
        >>= write_if want.rev (text_of res.rev)
        >>= write_if want.rev_log (json_to_string x (value_of res.rev_log) false)

  -- do_document_get
  unfoldable pub do_document_get : Database → l.State → Socket → Result Socket
  do_document_get db st sock = do
    (params, s1) ← read_uint32 sock
    (id, s2) ← read_id s1
    (rev, s3) ← read_str s2
    rnum ← parse_revision rev
    let want = wanted_of params
    res ← get x (create_storage l false) db id (if is_empty rnum then none else some rnum) want st
    answer_get want res s3

  -- The answer of do_command_put.
  unfoldable pub answer_put : PutResult → Socket → Result Socket
  answer_put res sock =
      write_str res.assigned_rev.stringed (write_uint32 (status_value res.code) sock)

  -- do_command_put. `room` is the spare capacity that put may meet.
  unfoldable pub do_command_put : Database → ℕ → l.State → Socket → Result (l.State × Socket)
  do_command_put db room st sock = do
    (id, s1) ← read_id sock
    (rev, s2) ← read_str s1
    (doc, s3) ← read_str s2
    old ← parse_revision rev
    content ← string_to_json x doc
    (res, st') ← put x (create_storage l false) db room id old content false st
    s4 ← answer_put res s3
    ok (st', s4)
