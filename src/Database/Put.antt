-- ===== src/Database/Put.antt =====
-- Writing a document: Database::put and what it calls (libsofadb/database.cpp).
pub mod Logs
pub mod Effects
pub mod Keys
pub mod Frame
use sofa_db.Prelude.{
  ℕ, zero, suc, ◌+◌, ◌*◌, ◌/◌, ◌%◌, ◌^◌, Bool, true, false, not, ◌&&◌, ◌||◌, List, [], ◌∷◌, ◌++◌,
  Option, none, some, get_elem?, take, ◌==◌, if◌then◌else◌,
}
use sofa_db.Prelude.Int.{ℤ, pos, eqb_ℤ}
use sofa_db.Text.{Bytes, bytes_eq}
use sofa_db.Failure.{Result, ok, fail, out_of_range, ◌>>=◌, ◌>>◌, assert, err, s_error}
use sofa_db.Json.Value.{
  JsonValue, Items, Fields, nil, bool, int, str, submap, sublist, no_items, no_fields, field,
  moved_from,
}
use sofa_db.Json.Access.{get_bool, get_int, get_str, get_submap, get_sublist}
use sofa_db.Json.Containers.{at_index, index_key, assign_key}
use sofa_db.Json.Text.{string_to_json, json_to_string}
use sofa_db.Json.Text.Stream.{
  JsonStream, make_stream, write_null, write_bool, write_string, write_json, start_list, end_list,
}
use sofa_db.Revision.{Revision, empty_revision, is_empty, make_revision, parse_revision}
use sofa_db.Revlog.{init_log, add_rev_info, top_quad, top_rev_id}
use sofa_db.Conflict.{merge}
use sofa_db.Storage.{Storage}
use sofa_db.Externals.{Externals}
use sofa_db.Database.{
  Database, PutResult, update_ok, update_conflict, check_closed, make_path, hex_text,
}

-- The test of put on the last entry of the log.
unfoldable pub mismatches : Revision → JsonValue → Result Bool
unfolding top_quad at_index get_int get_str
mismatches old_rev log = do
  quad ← top_quad log
  first ← at_index quad 0
  num ← get_int first
  second ← at_index quad 1
  uniq ← get_str second
  ok (not (eqb_ℤ (pos old_rev.num) num) || not (bytes_eq old_rev.uniq uniq))

-- The log that put writes, where there is nothing to merge.
unfoldable pub extend_log : Bool → Revision → Revision → JsonValue → Result JsonValue
unfolding add_rev_info is_empty
extend_log has_prev old_rev assigned log = do
  prior ←
      if not (is_empty old_rev) && not has_prev
      then add_rev_info old_rev false false log
      else ok log
  add_rev_info assigned true false prior

module _ (x : Externals) where
  -- compute_revision: the number is a uint32_t.
  unfoldable pub compute_revision : Revision → Bytes → Revision
  unfolding make_revision
  compute_revision prev body =
      make_revision x ((prev.num + 1) % 2 ^ 32) (hex_text (take 16 (x.md5 body)))

  -- The body that store_data writes: [deleted, prev_rev, attachments, content].
  unfoldable pub body_of : Revision → Bool → JsonValue → Bytes
  unfolding write_null write_bool write_string write_json start_list end_list
  body_of prev_rev deleted content = x.render (
      end_list (
        write_json content (
          write_null
            (write_string prev_rev.stringed (write_bool deleted (start_list make_stream))))))

module _ (x : Externals) (s : Storage) where
  -- get_revlog: the log, and whether there was one.
  unfoldable pub get_revlog : Bytes → s.State → Result (Bool × JsonValue)
  unfolding init_log
  get_revlog path_base st = do
    found ← s.try_get path_base st
    elim found [
      | none ↦ init_log nil >>= λ log. ok (false, log)
      | some text ↦ string_to_json x text >>= λ log. ok (true, log)
    ]

  -- store_data
  unfoldable pub store_data :
      Bytes → Revision → Bool → JsonValue → s.State → Result (Revision × s.State)
  unfolding body_of compute_revision
  store_data path_base prev_rev deleted content st = do
    let body = body_of x prev_rev deleted content
    let rev = compute_revision x prev_rev body
    st' ← s.put (path_base ++ rev.stringed) body st
    ok (rev, st')

  -- put from the call of store_data on. `room` is the spare capacity of the log's vector.
  unfoldable pub update_document :
      ℕ
      → Bytes
      → Revision
      → JsonValue
      → Bool
      → Bool
      → JsonValue
      → s.State
      → Result (PutResult × s.State)
  unfolding store_data extend_log is_empty json_to_string
  update_document room path old_rev content has_prev need_to_merge log st = do
    stored ← store_data path old_rev false content st
    assert (not (is_empty stored.0))
    log' ←
        if need_to_merge
        then merge x room stored.0 no_items log
        else extend_log has_prev old_rev stored.0 log
    st' ← s.put path (json_to_string x log' false) stored.1
    ok (record { code = update_ok; assigned_rev = stored.0; rev_log = log' }, st')

  -- put
  unfoldable pub put :
      Database → ℕ → Bytes → Revision → JsonValue → Bool → s.State → Result (PutResult × s.State)
  put db room id old_rev content do_merge st = do
    check_closed db
    let path = make_path db id
    found ← get_revlog path st
    conflict ← if found.0 then mismatches old_rev found.1 else ok false
    if conflict && not do_merge
        then ok (
          record { code = update_conflict; assigned_rev = empty_revision; rev_log = found.1 },
          st,
        )
        else update_document room path old_rev content found.0 conflict found.1 st
