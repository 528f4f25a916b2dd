-- ===== src/Tools/LoadTags/Puts.antt =====
-- The puts that loadtags (tools/loadtags.cpp) makes of a dump.
use sofa_db.Prelude.{ℕ, ◌≡◌, refl, ap, ◌∙◌, false, List, [], ◌∷◌, map, some, All}
use sofa_db.Text.{Bytes}
use sofa_db.Failure.{Result, ok, fail, ◌>>=◌}
use sofa_db.Json.Value.{JsonValue}
use sofa_db.Json.Plain.{settled}
use sofa_db.Json.Input.{StreamReader, IsStreamReader}
use sofa_db.Revision.{empty_revision}
use sofa_db.Storage.{Storage}
use sofa_db.Database.{Database, PutResult}
use sofa_db.Database.Put.{put}
use sofa_db.Externals.{Externals}
use sofa_db.Tools.LoadTags.{put_document, load_dump}
use sofa_db.Tools.LoadTags.Loads.{IsDumpable, dump_from, put_documents, load_dump-dump_from}
use sofa_db.Tools.LoadTags.Tracks.{HasTrack, track_id_of-HasTrack}

-- A value of a dump, with the ID of its track.
abbrev pub IsDocument : Bytes × JsonValue → Type 0
IsDocument (id, v) = IsDumpable v × HasTrack id v

abbrev pub values_of : List (Bytes × JsonValue) → List JsonValue
values_of l = map (λ (p : Bytes × JsonValue). p.1) l

module _ (x : Externals) (s : Storage) (db : Database) (room : ℕ) where
  -- Documents that are put one behind the other, as if each were new.
  unfoldable pub put_in_order : List (Bytes × JsonValue) → s.State → Result s.State
  put_in_order [] st = ok st
  put_in_order ((id, v) ∷ l) st =
      put x s db room id empty_revision v false st >>= λ (done : PutResult × s.State).
      put_in_order l done.1

abbrev pub settled_document : Bytes × JsonValue → Bytes × JsonValue
settled_document (id, v) = (id, settled v)

then_same {ℓ} :
    {S : Type ℓ} (done : Result (PutResult × S)) (f g : S → Result S)
    → ((st : S) → f st ≡ g st)
    → ((done >>= λ d. ok d.1) >>= f) ≡ (done >>= λ d. g d.1)
then_same (fail failure) f g h = refl
then_same (ok d) f g h = h d.1

module _ (x : Externals) (t : StreamReader) (law : IsStreamReader x t) (s : Storage) (db : Database)
    (room : ℕ) where
  put_documents-put_in_order :
      (l : List (Bytes × JsonValue)) (st : s.State)
      → All IsDocument l
      → put_documents x t s db room (values_of l) st
        ≡ put_in_order x s db room (map settled_document l) st
  unfolding put_documents put_in_order put_document
  put_documents-put_in_order [] st h = refl
  put_documents-put_in_order ((id, v) ∷ l) st h = rw (track_id_of-HasTrack id v h.0.0.0 h.0.1) (
      then_same (put x s db room id empty_revision (settled v) false st) _ _
        (λ st'. put_documents-put_in_order l st' h.1))

  -- loadtags puts the values of a dump in their order, each as the document whose ID is the text
  -- at "track_id" in its "metadata", with no old revision, and returns 0; or it ends with the
  -- exception of the first put that throws one. What is put of a value is the value with grafts
  -- replaced by what they point at and big integers that fit an int64_t as ints. The dump is an
  -- array, of at least one value, that was written value by value with json_to_string and a
  -- comma between them; each value is an object or an array and has such a text when it is read
  -- back, holds no double and no empty key, its ints fit an int64_t, its maps are in order and
  -- its big integers are decimal texts.
  pub load_dump-put_in_order :
      (first : Bytes × JsonValue) (l : List (Bytes × JsonValue)) (after : Bytes) (st : s.State)
      → IsDocument first
      → All IsDocument l
      → load_dump x t s db room (b'[' ∷ dump_from x first.1 (values_of l) after) st
        ≡ some
            (put_in_order x s db room (map settled_document (first ∷ l)) st >>= λ st'. ok (0, st'))
  load_dump-put_in_order first l after st d ds =
      load_dump-dump_from x t law s db room first.1 (values_of l) after st d.0 (dumpable l ds)
      ∙ ap (λ (r : Result s.State). some (r >>= λ st'. ok (0, st')))
          (put_documents-put_in_order (first ∷ l) st (d, ds))
    where
      dumpable : (l : List (Bytes × JsonValue)) → All IsDocument l → All IsDumpable (values_of l)
      dumpable [] h = tt
      dumpable (p ∷ l) h = (h.0.0, dumpable l h.1)
