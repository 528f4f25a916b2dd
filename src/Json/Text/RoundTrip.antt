-- ===== src/Json/Text/RoundTrip.antt =====
-- string_to_json after json_to_string (libsofadb/native_json.cpp).
use sofa_db.Prelude.{◌≡◌, false}
use sofa_db.Failure.{ok}
use sofa_db.Json.Value.{JsonValue}
use sofa_db.Json.Plain.{IsPlain, IsRooted, settled}
use sofa_db.Json.Reading.Rebuild.{reads_root}
use sofa_db.Json.Text.{string_to_json, json_to_string, parse_from_stream}
use sofa_db.Externals.{Externals}
use sofa_db.Externals.Laws.{IsDocumented}

-- Reading the text of a value gives the value back, with its grafts replaced by what they point
-- at and the big integers that fit an int64_t as ints. The value is an object or an array, holds
-- no double and no empty key, and its big integers are decimal texts.
pub string_to_json-json_to_string :
    (x : Externals)
    → IsDocumented x
    → (v : JsonValue) → IsPlain v
    → IsRooted v
    → string_to_json x (json_to_string x v false) ≡ ok (settled v)
unfolding string_to_json json_to_string parse_from_stream
string_to_json-json_to_string x d v p r = rw (d.scans_rendered v p r) (rw (reads_root x v p r))
