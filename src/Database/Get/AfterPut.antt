-- ===== src/Database/Get/AfterPut.antt =====
-- What a get returns after a put.
use sofa_db.Prelude.{
  ℕ, ◌-◌, ◌^◌, ◌≡◌, ◌<◌, refl, ◌∙◌, Bool, true, false, List, [], ◌∷◌, ◌++◌, none, some, All, arith,
}
use sofa_db.Text.{Bytes}
use sofa_db.Failure.{ok, ◌>>=◌}
use sofa_db.Json.Value.{JsonValue}
use sofa_db.Json.Plain.{IsPlain, settled}
use sofa_db.Revision.{Revision, make_revision, parse_revision}
use sofa_db.Revlog.View.{Entry, LogView, last_entry, with_entry}
use sofa_db.Revlog.Plain.{Fits}
use sofa_db.Conflict.Spec.{entry_of, last_entry-append}
use sofa_db.Storage.{Storage, IsMap}
use sofa_db.Database.{Database, make_path}
use sofa_db.Database.Put.{put, compute_revision}
use sofa_db.Database.Put.Effects.{HoldsLog, assigned, stored, put-first, put-next}
use sofa_db.Database.Put.Logs.{first_log, is_top}
use sofa_db.Database.Put.Keys.{lookup-stored_log, lookup-stored_body}
use sofa_db.Database.Get.{Wanted, GetResult, get}
use sofa_db.Database.Get.Reads.{get-latest, read_document-body, info_of}
use sofa_db.Externals.{Externals}
use sofa_db.Externals.Laws.{IsDocumented}

-- The parameters of a get that asks for the content and the revision.
abbrev pub content_and_rev : Wanted
content_and_rev = record { content = true; rev = true; rev_log = false }

-- What such a get returns of a document whose last put had this content and this revision before.
abbrev pub latest : Externals → Bytes → Revision → Revision → JsonValue → GetResult
latest x id num old content = record {
  found = true;
  content = some (settled content);
  rev = some (info_of id num old false);
  rev_log = none;
}

pub Fits-append : (l : List Entry) (e : Entry) → All Fits l → Fits e → All Fits (l ++ (e ∷ []))
Fits-append [] e h f = (f, tt)
Fits-append (g ∷ l) e h f = (h.0, Fits-append l e h.1 f)

module _ (x : Externals) (d : IsDocumented x) (s : Storage) (m : IsMap s) where
  module _ (old : Revision) (content : JsonValue) (st : s.State) (path : Bytes) where
    pub assigned-Fits : Fits (entry_of (assigned x s m old content))
    unfolding compute_revision make_revision
    assigned-Fits = omega arith

    -- A put leaves the log in the storage, with the assigned revision at its top.
    pub HoldsLog-stored :
        (v : LogView)
        → All Fits v.entries
        → last_entry v.entries ≡ some (entry_of (assigned x s m old content))
        → HoldsLog x s m path v
            (entry_of (assigned x s m old content))
            (stored x s m path old content v st)
    HoldsLog-stored v f h = record {
      text = lookup-stored_log x s m old content v st path;
      fits = f;
      at_top = h;
    }

  module _ (db : Database) (room : ℕ) (id : Bytes) (old : Revision) (content : JsonValue)
      (st : s.State) where
    pub first_log-Fits :
        old.num < 2 ^ 32 - 1
        → All Fits (first_log old (assigned x s m old content)).entries
          × (last_entry (first_log old (assigned x s m old content)).entries
              ≡ some (entry_of (assigned x s m old content)))
    unfolding first_log last_entry
    first_log-Fits b = ground (arith, assigned-Fits old content st (make_path db id))

    get-stored :
        (v : LogView)
        → All Fits v.entries
        → last_entry v.entries ≡ some (entry_of (assigned x s m old content))
        → IsPlain content
        → parse_revision old.stringed ≡ ok old
        → get x s db id none content_and_rev (stored x s m (make_path db id) old content v st)
          ≡ ok (latest x id (assigned x s m old content) old content)
    unfolding compute_revision make_revision
    get-stored v f h p q =
        get-latest x d s m db id content_and_rev (stored x s m (make_path db id) old content v st) v
          (entry_of (assigned x s m old content))
          (HoldsLog-stored old content st (make_path db id) v f h)
          (assigned-Fits old content st (make_path db id)) refl refl
        ∙ read_document-body x d s m (make_path db id) id (assigned x s m old content) old false
            content (stored x s m (make_path db id) old content v st) content_and_rev none
            (lookup-stored_body x s m old content v st (make_path db id)) p q

    module _ (is_open : db.closed ≡ false) (plain : IsPlain content)
        (readable : parse_revision old.stringed ≡ ok old) where
      -- After the first put of a document, a get that names no revision and asks for the content
      -- and the revision, but not for the log, returns the content that was put, with grafts
      -- replaced by what they point at and big integers that fit an int64_t as ints, the
      -- assigned revision, and the one that the caller named. The database is open, the storage
      -- does not fail and holds no log of the document, the content holds no double and no empty
      -- key, its ints fit an int64_t, its maps are in order and its big integers are decimal
      -- texts, the revision that the caller names is read back from its text, and its number is
      -- below 2 ^ 32 - 1.
      pub get-put_first :
          (merging : Bool)
          → old.num < 2 ^ 32 - 1
          → m.lookup (make_path db id) st ≡ none
          → (put x s db room id old content merging st >>= λ done.
              get x s db id none content_and_rev done.1)
            ≡ ok (latest x id (assigned x s m old content) old content)
      get-put_first merging b h =
          rw (put-first x d s m db room id old content st is_open merging b h) (
            get-stored (first_log old (assigned x s m old content)) (first_log-Fits b).0
              (first_log-Fits b).1 plain readable)

      -- After a put on top of the last revision of a document, a get that names no revision and
      -- asks for the content and the revision, but not for the log, returns the content that was
      -- put, with grafts replaced by what they point at and big integers that fit an int64_t as
      -- ints, the assigned revision, and the one before it. The database is open, the storage
      -- does not fail, the content holds no double and no empty key, its ints fit an int64_t,
      -- its maps are in order and its big integers are decimal texts, the revision that the
      -- caller names is read back from its text, and its number is below 2 ^ 32 - 1.
      pub get-put_next :
          (merging : Bool) (v : LogView) (last : Entry)
          → HoldsLog x s m (make_path db id) v last st
          → old.num < 2 ^ 32 - 1
          → is_top old last ≡ true
          → (put x s db room id old content merging st >>= λ done.
              get x s db id none content_and_rev done.1)
            ≡ ok (latest x id (assigned x s m old content) old content)
      get-put_next merging v last h b t =
          rw (put-next x d s m db room id old content st is_open merging v last h b t) (
            get-stored (with_entry (entry_of (assigned x s m old content)) v)
              (Fits-append v.entries (entry_of (assigned x s m old content)) h.fits
                (assigned-Fits old content st (make_path db id)))
              (last_entry-append v.entries (entry_of (assigned x s m old content))) plain readable)
