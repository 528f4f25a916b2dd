-- ===== src/Database/Get.antt =====
-- Reading a document: Database::get (libsofadb/database.cpp).
pub mod Reads
pub mod AfterPut
pub mod Isolation
pub mod Chain
use sofa_db.Prelude.{
  ℕ, zero, suc, ◌+◌, ◌*◌, ◌/◌, ◌%◌, ◌^◌, Bool, true, false, not, ◌&&◌, ◌||◌, List, [], ◌∷◌, ◌++◌,
  Option, none, some, get_elem?, take, ◌==◌, if◌then◌else◌,
}
use sofa_db.Prelude.Int.{ℤ, pos, eqb_ℤ}
use sofa_db.Text.{Bytes, bytes_eq}
use sofa_db.Failure.{Result, ok, fail, out_of_range, ◌>>=◌, ◌>>◌, assert, err, s_error}
use sofa_db.Json.Value.{
  JsonValue, Items, Fields, nil, bool, int, str, submap, sublist, no_items, no_fields, field,
  moved_from,
}
use sofa_db.Json.Access.{get_bool, get_int, get_str, get_submap, get_sublist}
use sofa_db.Json.Containers.{at_index, index_key, assign_key}
use sofa_db.Json.Text.{string_to_json, json_to_string}
use sofa_db.Json.Text.Stream.{
  JsonStream, make_stream, write_null, write_bool, write_string, write_json, start_list, end_list,
}
use sofa_db.Revision.{Revision, empty_revision, is_empty, make_revision, parse_revision}
use sofa_db.Revlog.{init_log, add_rev_info, top_quad, top_rev_id}
use sofa_db.Conflict.{merge}
use sofa_db.Storage.{Storage}
use sofa_db.Externals.{Externals}
use sofa_db.Database.{Database, RevisionInfo, make_path}

-- What a call of get leaves in its output parameters, and its result. A parameter that the caller
-- does not give, or that the call does not reach, is not written.
pub record GetResult : Type 0 where
  pub found : Bool
  pub content : Option JsonValue
  pub rev : Option RevisionInfo
  pub rev_log : Option JsonValue

-- The output parameters that a caller gives.
pub record Wanted : Type 0 where
  pub content : Bool
  pub rev : Bool
  pub rev_log : Bool

abbrev pub when {ℓ} : {A : Type ℓ} → Bool → A → Option A
when b a = if b then some a else none

-- The stored body, [deleted, prev_rev, attachments, content], and its revision information.
unfoldable pub read_info : Bytes → Revision → Items → Result RevisionInfo
unfolding at_index get_bool get_str
read_info id num lst = do
  first ← at_index lst 0
  deleted ← get_bool first
  second ← at_index lst 1
  prev ← get_str second
  previous_rev ← parse_revision prev
  ok (record { id = id; deleted = deleted; previous_rev = previous_rev; rev = num })

module _ (x : Externals) (s : Storage) where
  -- get from the call that reads the document on.
  unfoldable pub read_document :
      Bytes → Bytes → Revision → Wanted → Option JsonValue → s.State → Result GetResult
  unfolding at_index get_sublist
  read_document path_base id num want rev_log st = do
    found ← s.try_get (path_base ++ num.stringed) st
    elim found [
      | none ↦ ok (record { found = false; content = none; rev = none; rev_log = rev_log })
      | some val ↦ do
        serialized ← string_to_json x val
        lst ← get_sublist serialized
        content ← if want.content then (at_index lst 3 >>= λ c. ok (some c)) else ok none
        rev ← if want.rev then (read_info id num lst >>= λ r. ok (some r)) else ok none
        ok (record { found = true; content = content; rev = rev; rev_log = rev_log })
    ]

  -- get where the log is read. The log is moved into the caller's parameter, if there is one,
  -- before its top is asked for.
  unfoldable pub read_with_log :
      Bytes → Bytes → Option Revision → Wanted → JsonValue → s.State → Result GetResult
  unfolding moved_from
  read_with_log path_base id rev_num want log st =
      let rev_log = when want.rev_log log in
      let rest = if want.rev_log then moved_from log else log in
      if not want.content && not want.rev
      then ok (record { found = true; content = none; rev = none; rev_log = rev_log })
      else do
        num ← elim rev_num [ none ↦ top_rev_id x rest | some r ↦ ok r ]
        read_document path_base id num want rev_log st

  -- get up to the log, and from there on.
  unfoldable pub read_logged : Bytes → Bytes → Option Revision → Wanted → s.State → Result GetResult
  read_logged path_base id rev_num want st = do
    found ← s.try_get path_base st
    elim found [
      | none ↦ ok (record { found = false; content = none; rev = none; rev_log = none })
      | some text ↦ string_to_json x text >>= λ log. read_with_log path_base id rev_num want log st
    ]

  -- get
  unfoldable pub get : Database → Bytes → Option Revision → Wanted → s.State → Result GetResult
  get db id rev_num want st = do
    assert (want.content || (want.rev || want.rev_log))
    elim rev_num [
      | none ↦ read_logged (make_path db id) id none want st
      | some r ↦
          if want.rev_log
          then read_logged (make_path db id) id (some r) want st
          else read_document (make_path db id) id r want none st
    ]
