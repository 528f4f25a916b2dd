-- ===== src/Database/Get/Reads.antt =====
-- What a get returns, by what the storage holds.
use sofa_db.Prelude.{
  ◌^◌, ◌≡◌, ◌<◌, refl, ap, ◌∙◌, Bool, true, false, ◌||◌, ◌++◌, Option, none, some, arith,
  append_assoc,
}
use sofa_db.Text.{Bytes}
use sofa_db.Failure.{ok, fail, undefined}
use sofa_db.Json.Value.{JsonValue, Items, no_items, item, nil, bool, str, sublist, moved_from}
use sofa_db.Json.Containers.{back}
use sofa_db.Json.Plain.{IsPlain, settled}
use sofa_db.Json.Text.{string_to_json, json_to_string}
use sofa_db.Json.Text.RoundTrip.{string_to_json-json_to_string}
use sofa_db.Json.Events.{print}
use sofa_db.Revision.{Revision, make_revision, parse_revision}
use sofa_db.Revlog.{top_rev_id}
use sofa_db.Revlog.View.{Entry, LogView, represent}
use sofa_db.Revlog.Refines.{top_rev_id-represent}
use sofa_db.Revlog.Plain.{string_to_json-represent}
use sofa_db.Storage.{Storage, IsMap}
use sofa_db.Database.{Database, make_path, RevisionInfo}
use sofa_db.Database.Put.{body_of}
use sofa_db.Database.Put.Effects.{HoldsLog}
use sofa_db.Database.Get.{Wanted, when, read_info, read_document, read_with_log, read_logged, get}
use sofa_db.Externals.{Externals}
use sofa_db.Externals.Laws.{IsDocumented}

-- The items of a stored body.
abbrev pub body_items : Revision → Bool → JsonValue → Items
body_items prev deleted content =
    item (bool deleted) (item (str prev.stringed) (item nil (item content no_items)))

-- The information that a body and its revision make.
abbrev pub info_of : Bytes → Revision → Revision → Bool → RevisionInfo
info_of id num prev deleted = record { id = id; deleted = deleted; previous_rev = prev; rev = num }

module _ (x : Externals) (d : IsDocumented x) where
  body_of-json_to_string :
      (prev : Revision) (deleted : Bool) (content : JsonValue)
      → body_of x prev deleted content
        ≡ json_to_string x (sublist (body_items prev deleted content)) false
  unfolding body_of json_to_string print
  body_of-json_to_string prev deleted content = simp append_assoc

  pub string_to_json-body_of :
      (prev : Revision) (deleted : Bool) (content : JsonValue)
      → IsPlain content
      → string_to_json x (body_of x prev deleted content)
        ≡ ok (sublist (body_items prev deleted (settled content)))
  unfolding settled
  string_to_json-body_of prev deleted content p =
      ap (string_to_json x) (body_of-json_to_string prev deleted content)
      ∙ string_to_json-json_to_string x d (sublist (body_items prev deleted content))
          (tt, (tt, (tt, (p, tt)))) tt

  module _ (s : Storage) (m : IsMap s) (path id : Bytes) (num prev : Revision) (deleted : Bool)
      (content : JsonValue) (st : s.State) where
    read_info-body :
        parse_revision prev.stringed ≡ ok prev
        → read_info id num (body_items prev deleted (settled content))
          ≡ ok (info_of id num prev deleted)
    unfolding read_info
    read_info-body p = rw p

    -- A stored body is read with its content, its mark and the revision before it.
    pub read_document-body :
        (want : Wanted) (rev_log : Option JsonValue)
        → m.lookup (path ++ num.stringed) st ≡ some (body_of x prev deleted content)
        → IsPlain content
        → parse_revision prev.stringed ≡ ok prev
        → read_document x s path id num want rev_log st
          ≡ ok (record {
            found = true;
            content = when want.content (settled content);
            rev = when want.rev (info_of id num prev deleted);
            rev_log = rev_log;
          })
    unfolding read_document
    read_document-body want rev_log h p q =
        rw
          (
            m.gets (path ++ num.stringed) st,
            h,
            string_to_json-body_of prev deleted content p,
            read_info-body q,
          )
          (ground arith)

  top_rev_id-moved : (v : LogView) → top_rev_id x (moved_from (represent v)) ≡ fail undefined
  unfolding top_rev_id moved_from represent back
  top_rev_id-moved v = refl

  module _ (s : Storage) (m : IsMap s) (db : Database) (id : Bytes) (want : Wanted)
      (st : s.State) where
    -- The revision that a log has at its top.
    abbrev pub top_of : Entry → Revision
    top_of e = make_revision x e.rev.num e.rev.uniq

    read_logged-log :
        (v : LogView) (last : Entry) (rev_num : Option Revision)
        → HoldsLog x s m (make_path db id) v last st
        → read_logged x s (make_path db id) id rev_num want st
          ≡ read_with_log x s (make_path db id) id rev_num want (represent v) st
    unfolding read_logged
    read_logged-log v last rev_num h =
        rw (m.gets (make_path db id) st, h.text, string_to_json-represent x d v h.fits)

    -- A get that names no revision, and asks for the content or the revision but not for the
    -- log, reads the document of the revision at the top of the log. The storage does not fail,
    -- and the number at the top fits a uint32_t.
    pub get-latest :
        (v : LogView) (last : Entry)
        → HoldsLog x s m (make_path db id) v last st
        → last.rev.num < 2 ^ 32
        → want.rev_log ≡ false
        → (want.content || want.rev) ≡ true
        → get x s db id none want st
          ≡ read_document x s (make_path db id) id (top_of last) want none st
    unfolding get read_with_log
    get-latest v last h b l c =
        ground (arith, read_logged-log v last none h, top_rev_id-represent x v last h.at_top b)

    -- A get that names no revision, and asks for the log and for the content or the revision,
    -- has moved the log away when it asks for its top: what follows is undefined, whatever the
    -- log says. The storage does not fail.
    pub get-moved_log :
        (v : LogView) (last : Entry)
        → HoldsLog x s m (make_path db id) v last st
        → want.rev_log ≡ true
        → (want.content || want.rev) ≡ true
        → get x s db id none want st ≡ fail undefined
    unfolding get read_with_log
    get-moved_log v last h l c = ground (arith, read_logged-log v last none h, top_rev_id-moved v)

    -- A get that names a revision, and does not ask for the log, reads that one.
    pub get-named :
        (r : Revision)
        → want.rev_log ≡ false
        → (want.content || want.rev) ≡ true
        → get x s db id (some r) want st ≡ read_document x s (make_path db id) id r want none st
    unfolding get
    get-named r l c = ground arith

    -- A get for the log alone returns it.
    pub get-log :
        (v : LogView) (last : Entry) (rev_num : Option Revision)
        → HoldsLog x s m (make_path db id) v last st
        → want.rev_log ≡ true
        → (want.content || want.rev) ≡ false
        → get x s db id rev_num want st
          ≡ ok (record { found = true; content = none; rev = none; rev_log = some (represent v) })
    unfolding get read_with_log
    get-log v last none h l c = ground (arith, read_logged-log v last none h)
    get-log v last (some r) h l c = ground (arith, read_logged-log v last (some r) h)
