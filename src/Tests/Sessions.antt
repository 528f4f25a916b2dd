-- ===== src/Tests/Sessions.antt =====
-- The theorems on the server, over a LevelDB in memory.
use sofa_db.Prelude.{◌≡◌, refl, false, List, [], ◌∷◌, ◌++◌, some, arith, inl, inr, Option-cases}
use sofa_db.Text.{Bytes, decimal_ℤ}
use sofa_db.Failure.{Result, ok}
use sofa_db.Json.Plain.{settled}
use sofa_db.Json.Text.{string_to_json, json_to_string}
use sofa_db.Json.Text.RoundTrip.{string_to_json-json_to_string}
use sofa_db.Revlog.View.{LogView}
use sofa_db.Json.Events.{print}
use sofa_db.Database.{hex_text}
use sofa_db.Revision.{Revision, make_revision, empty_revision, parse_revision}
use sofa_db.Storage.{IsMap}
use sofa_db.Storage.Memory.{lookup_in}
use sofa_db.Database.{make_path, update_ok}
use sofa_db.Database.Put.{put, compute_revision}
use sofa_db.Database.Put.Effects.{put-first, accepted, stored, assigned}
use sofa_db.Database.Put.Logs.{first_log}
use sofa_db.Engine.{DbEngine, db_try_get, db_put, create_storage, check}
use sofa_db.Server.{Socket, htonl, read_str, write_str}
use sofa_db.Server.Wire.{socket, framed, read_str-write_str}
use sofa_db.Server.Commands.{do_command_put, status_value}
use sofa_db.Server.Requests.{do_command_put-request}
use sofa_db.Server.Session.{session}
use sofa_db.Server.Session.Ends.{session_ends}
use sofa_db.Tests.Codec.{libraries, documented}
use sofa_db.Tests.Data.{db, doc, content}
use sofa_db.Tests.Documents.{content-IsPlain}
use sofa_db.Tests.Engines.{level}

level_map : IsMap (create_storage level false)
unfolding db_try_get db_put check lookup_in
level_map = record {
  lookup = lookup_in;
  store = λ k v st. (k, v) ∷ st;
  gets =
      λ k st. elim (Option-cases (lookup_in k st)) [ inl e ↦ rw e refl | inr (v, e) ↦ rw e refl ];
  puts = λ k v st. refl;
  lookup-store = λ k j v st. refl;
}

read_str-write_str_example :
    (write_str doc (socket [] (b'x' ∷ [])) ≡ ok (socket [] ((b'x' ∷ []) ++ framed doc)))
    × (read_str (socket (framed doc ++ []) []) ≡ ok (doc, socket [] []))
read_str-write_str_example = read_str-write_str doc [] (b'x' ∷ []) [] (omega arith)

session_ends_example :
    (r : Result (List (Bytes × DbEngine level) × Socket)) × (session libraries level 0
        (λ file. [])
        (λ i. i)
        []
        (socket (framed doc) [])
      ≡ some r)
session_ends_example =
    session_ends libraries level 0 (λ file. []) (λ i. i) [] (socket (framed doc) [])

abbrev pub content_text : Bytes
content_text = json_to_string libraries content false

pub reads_content : string_to_json libraries content_text ≡ ok content
unfolding settled
reads_content = string_to_json-json_to_string libraries documented content content-IsPlain tt

puts_content :
    put libraries (create_storage level false) db 0 doc empty_revision content false []
    ≡ ok (
      accepted libraries (create_storage level false) level_map empty_revision content (
          first_log empty_revision
            (assigned libraries (create_storage level false) level_map empty_revision content)),
      stored libraries
          (create_storage level false)
          level_map
          (make_path db doc)
          empty_revision
          content
          (first_log empty_revision
            (assigned libraries (create_storage level false) level_map empty_revision content))
          [],
    )
unfolding level_map lookup_in
puts_content =
    put-first libraries documented (create_storage level false) level_map db 0 doc empty_revision
      content [] refl false (omega arith) refl

abbrev first_rev : Revision
first_rev = assigned libraries (create_storage level false) level_map empty_revision content

abbrev first_entries : LogView
first_entries = first_log empty_revision first_rev

do_command_put-request_example :
    do_command_put libraries level db 0 []
      (socket (framed doc ++ (framed [] ++ (framed content_text ++ []))) [])
    ≡ ok (
      stored libraries
          (create_storage level false)
          level_map
          (make_path db doc)
          empty_revision
          content
          first_entries
          [],
      socket [] (([] ++ htonl (status_value update_ok)) ++ framed first_rev.stringed),
    )
unfolding json_to_string compute_revision print decimal_ℤ make_revision hex_text
do_command_put-request_example =
    do_command_put-request libraries level db [] 0 doc [] content_text [] [] empty_revision content
      (accepted libraries (create_storage level false) level_map empty_revision content
        first_entries)
      (stored libraries (create_storage level false) level_map (make_path db doc) empty_revision
        content first_entries [])
      (record {
        id_fits = omega arith;
        rev_fits = omega arith;
        doc_fits = omega arith;
        filled = λ e. cc;
      })
      (unfold parse_revision in refl) reads_content puts_content (omega arith)
