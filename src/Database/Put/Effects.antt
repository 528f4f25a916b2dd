-- ===== src/Database/Put/Effects.antt =====
-- What a put writes and returns, by what the document's log says.
use sofa_db.Prelude.{
  ℕ, ◌-◌, ◌^◌, ◌≡◌, ◌<◌, refl, Bool, true, false, ◌++◌, none, some, All, arith, if◌then◌else◌,
}
use sofa_db.Text.{Bytes}
use sofa_db.Failure.{ok}
use sofa_db.Json.Value.{JsonValue, no_items}
use sofa_db.Json.Text.{json_to_string}
use sofa_db.Revision.{Revision, empty_revision, is_empty}
use sofa_db.Revlog.View.{Entry, LogView, last_entry, represent, empty_log, with_entry}
use sofa_db.Revlog.Plain.{Fits, string_to_json-represent}
use sofa_db.Conflict.{merge}
use sofa_db.Conflict.Spec.{entry_of}
use sofa_db.Storage.{Storage, IsMap}
use sofa_db.Database.{Database, make_path, check_closed, PutResult, update_ok, update_conflict}
use sofa_db.Database.Put.{
  extend_log, compute_revision, body_of, get_revlog, store_data, update_document, put,
}
use sofa_db.Externals.{Externals}
use sofa_db.Externals.Laws.{IsDocumented}
use sofa_db.Database.Put.Logs.{
  first_log, is_top, mismatches-represent, extend_log-first, extend_log-next,
}

module _ (x : Externals) (s : Storage) (m : IsMap s) where
  -- The revision that a put assigns, and the body that it stores.
  abbrev pub assigned : Revision → JsonValue → Revision
  assigned old content = compute_revision x old (body_of x old false content)

  -- The storage after a put: the body under the assigned revision, and the log.
  abbrev pub stored : Bytes → Revision → JsonValue → LogView → s.State → s.State
  stored path old content v st =
      m.store path (json_to_string x (represent v) false)
        (m.store (path ++ (assigned old content).stringed) (body_of x old false content) st)

  -- What a put returns that has written the log.
  abbrev pub accepted : Revision → JsonValue → LogView → PutResult
  accepted old content v = record {
    code = update_ok;
    assigned_rev = assigned old content;
    rev_log = represent v;
  }

  pub assigned-filled :
      (old : Revision) (content : JsonValue)
      → old.num < 2 ^ 32 - 1
      → is_empty (assigned old content) ≡ false
  unfolding is_empty compute_revision
  assigned-filled old content h = ground arith

  update_document-eq :
      (room : ℕ) (path : Bytes) (old : Revision) (content : JsonValue) (has : Bool) (merging : Bool)
      (log : JsonValue) (v : LogView) (st : s.State)
      → old.num < 2 ^ 32 - 1
      → (if merging
          then merge x room (assigned old content) no_items log
          else extend_log has old (assigned old content) log)
        ≡ ok (represent v)
      → update_document x s room path old content has merging log st
        ≡ ok (accepted old content v, stored path old content v st)
  unfolding update_document store_data
  update_document-eq room path old content has merging log v st h e = rw (
    m.puts (path ++ (assigned old content).stringed) (body_of x old false content) st,
    assigned-filled old content h,
    e,
    m.puts path (json_to_string x (represent v) false) _,
  )

-- The storage holds a document's log.
pub record HoldsLog (x : Externals) (s : Storage) (m : IsMap s) (path : Bytes) (v : LogView)
    (last : Entry) (st : s.State) : Type 0 where
  pub text : m.lookup path st ≡ some (json_to_string x (represent v) false)
  pub fits : All Fits v.entries
  pub at_top : last_entry v.entries ≡ some last

module _ (x : Externals) (d : IsDocumented x) (s : Storage) (m : IsMap s) where
  pub get_revlog-none :
      (path : Bytes) (st : s.State)
      → m.lookup path st ≡ none
      → get_revlog x s path st ≡ ok (false, represent empty_log)
  unfolding get_revlog
  get_revlog-none path st h = rw (m.gets path st, h) (unfold represent in refl)

  pub get_revlog-some :
      (path : Bytes) (v : LogView) (last : Entry) (st : s.State)
      → HoldsLog x s m path v last st
      → get_revlog x s path st ≡ ok (true, represent v)
  unfolding get_revlog
  get_revlog-some path v last st h =
      rw (m.gets path st, h.text, string_to_json-represent x d v h.fits)

  module _ (db : Database) (room : ℕ) (id : Bytes) (old : Revision) (content : JsonValue)
      (st : s.State) (is_open : db.closed ≡ false) where
    pub check_open : check_closed db ≡ ok tt
    unfolding check_closed
    check_open = rw is_open

    abbrev path : Bytes
    path = make_path db id

    -- The first put of a document stores its body under the assigned revision, and a log with
    -- that revision, and with the one that the caller names as one whose body is missing, if it
    -- names one; it returns both. The database is open, the storage does not fail, and the
    -- number of the revision that the caller names is below 2 ^ 32 - 1. The storage holds no log
    -- of the document.
    pub put-first :
        (merging : Bool)
        → old.num < 2 ^ 32 - 1
        → m.lookup (make_path db id) st ≡ none
        → put x s db room id old content merging st
          ≡ ok (
            accepted x s m old content (first_log old (assigned x s m old content)),
            stored x s m
                (make_path db id)
                old
                content
                (first_log old (assigned x s m old content))
                st,
          )
    unfolding put
    put-first merging b h =
        rw (check_open, get_revlog-none path st h)
          (update_document-eq x s m room path old content false false (represent empty_log)
            (first_log old (assigned x s m old content)) st b
            (extend_log-first old (assigned x s m old content)))

    -- A put on top of the last revision of a document's log stores the body under the assigned
    -- revision and the log with that revision behind the others, and returns both. The database
    -- is open, the storage does not fail, and the number of the revision that the caller names
    -- is below 2 ^ 32 - 1.
    pub put-next :
        (merging : Bool) (v : LogView) (last : Entry)
        → HoldsLog x s m (make_path db id) v last st
        → old.num < 2 ^ 32 - 1
        → is_top old last ≡ true
        → put x s db room id old content merging st
          ≡ ok (
            accepted x s m old content (with_entry (entry_of (assigned x s m old content)) v),
            stored x s m
                (make_path db id)
                old
                content
                (with_entry (entry_of (assigned x s m old content)) v)
                st,
          )
    unfolding put
    put-next merging v last h b t =
        rw
          (
            check_open,
            get_revlog-some path v last st h,
            mismatches-represent old v last h.at_top,
            t,
          )
          (update_document-eq x s m room path old content true false (represent v)
            (with_entry (entry_of (assigned x s m old content)) v) st b
            (extend_log-next old (assigned x s m old content) v))

    -- A put that names another revision than the last one of the log, and asks for no merge, is
    -- refused: it returns UPDATE_CONFLICT and the log, assigns no revision and leaves the
    -- storage as it was. The database is open, and the storage does not fail.
    pub put-conflict :
        (v : LogView) (last : Entry)
        → HoldsLog x s m (make_path db id) v last st
        → is_top old last ≡ false
        → put x s db room id old content false st
          ≡ ok (
            record { code = update_conflict; assigned_rev = empty_revision; rev_log = represent v },
            st,
          )
    unfolding put
    put-conflict v last h t =
        rw (
          check_open,
          get_revlog-some path v last st h,
          mismatches-represent old v last h.at_top,
          t,
        )

    -- A put that names another revision than the last one of the log, and asks for a merge,
    -- stores the body and the log that the resolver makes, if the resolver returns a log. The
    -- database is open, the storage does not fail, and the number of the revision that the
    -- caller names is below 2 ^ 32 - 1.
    pub put-merge :
        (v v' : LogView) (last : Entry)
        → HoldsLog x s m (make_path db id) v last st
        → old.num < 2 ^ 32 - 1
        → is_top old last ≡ false
        → merge x room (assigned x s m old content) no_items (represent v) ≡ ok (represent v')
        → put x s db room id old content true st
          ≡ ok (accepted x s m old content v', stored x s m (make_path db id) old content v' st)
    unfolding put
    put-merge v v' last h b t e =
        rw
          (
            check_open,
            get_revlog-some path v last st h,
            mismatches-represent old v last h.at_top,
            t,
          )
          (update_document-eq x s m room path old content true true (represent v) v' st b e)
