-- ===== src/Tests/Data.antt =====
-- The inputs of the tests: a database in memory, documents, revisions and logs.
use sofa_db.Prelude.{false, List, [], ◌∷◌}
use sofa_db.Prelude.Int.{pos}
use sofa_db.Text.{Bytes}
use sofa_db.Json.Value.{JsonValue, nil, int, submap, no_fields, field}
use sofa_db.Json.Text.{json_to_string}
use sofa_db.Revision.{Revision, make_revision}
use sofa_db.Revlog.View.{LogView, represent}
use sofa_db.Conflict.Spec.{entry_of}
use sofa_db.Database.{Database, make_path}
use sofa_db.Tests.Codec.{libraries}

abbrev pub db : Database
db = record { closed = false; name = b'd' ∷ (b'b' ∷ []); meta = nil }

abbrev pub other_db : Database
other_db = record { closed = false; name = b'd' ∷ (b'2' ∷ []); meta = nil }

abbrev pub doc : Bytes
doc = b'd' ∷ (b'o' ∷ (b'c' ∷ []))

-- {"a": 7}
abbrev pub content : JsonValue
content = submap (field (b'a' ∷ []) (int (pos 7)) no_fields)

abbrev pub rev_a : Revision
rev_a = make_revision libraries 1 (b'a' ∷ [])

abbrev pub rev_b : Revision
rev_b = make_revision libraries 1 (b'b' ∷ [])

abbrev pub rev_c : Revision
rev_c = make_revision libraries 2 (b'c' ∷ [])

-- A log of one revision.
abbrev pub log_a : LogView
log_a = record { conflicts = []; entries = entry_of rev_a ∷ [] }

-- A storage that holds that log, and no body.
abbrev pub held : List (Bytes × Bytes)
held = (make_path db doc, json_to_string libraries (represent log_a) false) ∷ []
