-- ===== src/Tools/LoadTags.antt =====
-- loadtags (tools/loadtags.cpp): a JSON array is read value by value, and each value is put as a
-- document whose ID stands in it.
pub mod Loads
pub mod Ends
pub mod Tracks
pub mod Puts
use sofa_db.Prelude.{
  ℕ, zero, suc, Bool, true, false, List, [], ◌∷◌, Option, none, some, length, ◌==◌, if◌then◌else◌,
}
use sofa_db.Text.{Bytes}
use sofa_db.Failure.{Result, ok, fail, ◌>>=◌}
use sofa_db.Json.Value.{JsonValue, str}
use sofa_db.Json.Access.{as_str}
use sofa_db.Json.Containers.{index_key, assign_key}
use sofa_db.Json.Input.{StreamReader, json_from_stream}
use sofa_db.Streams.Input.{IStream, open_stream, get_char}
use sofa_db.Revision.{empty_revision}
use sofa_db.Storage.{Storage}
use sofa_db.Database.{Database}
use sofa_db.Database.Put.{put}
use sofa_db.Engine.{LevelDb, DbEngine, create_storage, create_a_database}
use sofa_db.Externals.{Externals}

-- "tags", "metadata" and "track_id"
abbrev pub tags_text : Bytes
tags_text = b't' ∷ b'a' ∷ b'g' ∷ b's' ∷ []

abbrev pub metadata_text : Bytes
metadata_text = b'm' ∷ b'e' ∷ b't' ∷ b'a' ∷ b'd' ∷ b'a' ∷ b't' ∷ b'a' ∷ []

abbrev pub track_id_text : Bytes
track_id_text = b't' ∷ b'r' ∷ b'a' ∷ b'c' ∷ b'k' ∷ b'_' ∷ b'i' ∷ b'd' ∷ []

-- val["metadata"]["track_id"].as_str(), and what val is then: a missing element is made.
unfoldable pub track_id_of : JsonValue → Result (Bytes × JsonValue)
unfolding index_key assign_key as_str
track_id_of val = do
  metadata ← index_key val metadata_text
  track ← index_key metadata.0 track_id_text
  id ← as_str track.0
  metadata' ← assign_key track.1 track_id_text (str id)
  val' ← assign_key metadata.1 metadata_text metadata'
  ok (id, val')

module _ (x : Externals) (t : StreamReader) where
  module _ (s : Storage) (db : Database) (room : ℕ) where
    -- The put of a value that was read.
    unfoldable pub put_document : JsonValue → s.State → Result s.State
    put_document val st = do
      found ← track_id_of val
      done ← put x s db room found.0 empty_revision found.1 false st
      ok done.1

    -- The first two statements of the loop.
    unfoldable pub load_document : IStream → s.State → Result (IStream × s.State)
    unfolding put_document
    load_document r st = do
      read ← json_from_stream x t r
      st' ← put_document read.0 st
      ok (read.1, st')

    -- What follows the character behind a value; `rest` is the next round.
    unfoldable pub after_char :
        Option ℕ → s.State → Option (Result (ℕ × s.State)) → Option (Result (ℕ × s.State))
    after_char none st rest = some (ok (2, st))
    after_char (some c) st rest =
        if c == b']' then some (ok (0, st)) else if c == b',' then rest else some (ok (2, st))

    unfoldable pub after_put :
        (IStream → s.State → Option (Result (ℕ × s.State)))
        → Result (IStream × s.State)
        → Option (Result (ℕ × s.State))
    unfolding after_char get_char
    after_put rest (fail failure) = some (fail failure)
    after_put rest (ok (r, st)) = let (ch, r') = get_char r in after_char ch st (rest r' st)

    -- The loop, and what main returns. A round spends a unit of fuel; `none` says that there is
    -- none left.
    unfoldable pub load_all : ℕ → IStream → s.State → Option (Result (ℕ × s.State))
    unfolding after_put
    load_all zero r st = none
    load_all (suc fuel) r st = after_put (λ r' st'. load_all fuel r' st') (load_document r st)

    -- From the opening of the dump on.
    unfoldable pub load_dump : Bytes → s.State → Option (Result (ℕ × s.State))
    unfolding load_all get_char
    load_dump dump st =
        let (ch, r) = get_char (open_stream dump) in
        elim ch [
          | none ↦ some (ok (2, st))
          | some c ↦ if c == b'[' then load_all (suc (length dump)) r st else some (ok (2, st))
        ]

  module _ (l : LevelDb) (room : ℕ) where
    -- main, after the check of its arguments.
    unfoldable pub load_tags : ℕ → Bytes → DbEngine l → Option (Result (ℕ × DbEngine l))
    unfolding load_dump create_a_database
    load_tags now dump e = elim (create_a_database x l now tags_text e) [
      | fail failure ↦ some (fail failure)
      | ok (db, e') ↦ elim (load_dump (create_storage l false) db room dump e'.keystore) [
        | none ↦ none
        | some (fail failure) ↦ some (fail failure)
        | some (ok (code, st)) ↦ some (ok (code, record e' { keystore = st }))
      ]
    ]
