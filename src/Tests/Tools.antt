-- ===== src/Tests/Tools.antt =====
-- The theorems on the tools, applied to small inputs, with a text format that says how long a value
-- is.
use sofa_db.Prelude.{
  arith, ℕ, suc, ◌+◌, ◌≡◌, ◌≢◌, refl, ap, ◌∙◌, false, [], ◌∷◌, ◌++◌, none, some, All, length, take,
  take-length_append, List, map,
}
use sofa_db.Text.{Bytes}
use sofa_db.Failure.{Result, ok, fail, undefined, ◌>>=◌}
use sofa_db.Json.Value.{JsonValue, str, submap, field, no_fields}
use sofa_db.Json.Events.{print}
use sofa_db.Json.Plain.{settled}
use sofa_db.Json.Text.{json_to_string}
use sofa_db.Json.Input.{
  StreamReader, IsStreamReader, ended, starved, json_from_stream, json_from_stream_lem,
}
use sofa_db.Streams.Input.{IStream, open_stream}
use sofa_db.Storage.Memory.{memory}
use sofa_db.Externals.{Externals}
use sofa_db.Externals.Laws.{reread_all}
use sofa_db.Tools.LoadTags.{load_dump, metadata_text, track_id_text}
use sofa_db.Tools.LoadTags.Loads.{IsDumpable, dump_from}
use sofa_db.Tools.LoadTags.Puts.{
  IsDocument, values_of, settled_document, put_in_order, load_dump-put_in_order,
}
use sofa_db.Tools.LoadTags.Ends.{load_dump_ends}
use sofa_db.Tools.BenchCouch.{bench_couch, batch_size, id_text, with_id}
use sofa_db.Tools.BenchCouch.Posts.{IsSplit, batch_text, with_ids, bench_couch-dump_from}
use sofa_db.Text.{bytes_eq, bytes_lt}
use sofa_db.Json.Access.{get_submap}
use sofa_db.Json.Containers.{index_key, assign_key, find_field, set_field}
use sofa_db.Tools.DumpLdb.{print_bytes}
use sofa_db.Tools.DumpLdb.Prints.{unprint-print_bytes, print_bytes-high, Printable, unprint, plain}
use sofa_db.Tests.Codec.{
  libraries, reread_text, ready, encode_all, decode, decode-encode_all, reread_all-same,
}
use sofa_db.Tests.Data.{db, content}
use sofa_db.Tests.Documents.{content-IsPlain}

abbrev measured : Externals
measured = record libraries { render = λ es. length (encode_all es) ∷ encode_all es }

abbrev reader : StreamReader
reader = record {
  scan_trailing = λ position s. elim s [
    | [] ↦ ([], starved)
    | n ∷ rest ↦ (reread_all reread_text (decode ready (take n rest)), ended (suc n) none)
  ];
}

reader-IsStreamReader : IsStreamReader measured reader
reader-IsStreamReader = record {
  reads_first = λ position v c rest p q n.
      ap
        (λ s. (
          reread_all reread_text (decode ready s),
          ended (length (measured.render (print v))) none,
        ))
        (take-length_append (encode_all (print v)) (c ∷ rest))
      ∙ ap (λ es. (reread_all reread_text es, ended (length (measured.render (print v))) none))
          (decode-encode_all (print v))
      ∙ ap (λ es. (es, ended (length (measured.render (print v))) none))
          (reread_all-same measured (λ d. refl) (print v));
}

-- {"metadata": {"track_id": "t"}}
abbrev track : JsonValue
track =
    submap
      (field metadata_text (submap (field track_id_text (str (b't' ∷ [])) no_fields)) no_fields)

track-IsDumpable : IsDumpable track
track-IsDumpable = (((tt, tt), ((λ e. cc), ((tt, tt), ((λ e. cc), tt, tt)), tt)), tt)

-- The document "t", which is track.
abbrev track_document : Bytes × JsonValue
track_document = (b't' ∷ [], track)

track-IsDocument : IsDocument track_document
unfolding settled find_field bytes_eq
track-IsDocument = (
  track-IsDumpable,
  record {
    metadata = submap (field track_id_text (str (b't' ∷ [])) no_fields);
    inside = refl;
    track = refl;
  },
)

load_dump-put_in_order_example :
    load_dump measured reader memory db 0
      (b'[' ∷ dump_from measured track (values_of (track_document ∷ [])) [])
      []
    ≡ some (
        put_in_order measured memory db 0
          (map settled_document (track_document ∷ (track_document ∷ [])))
          []
        >>= λ st. ok (0, st))
load_dump-put_in_order_example =
    load_dump-put_in_order measured reader reader-IsStreamReader memory db 0 track_document
      (track_document ∷ []) [] [] track-IsDocument (track-IsDocument, tt)

load_dump_ends_example :
    (res : Result (ℕ × memory.State)) × (load_dump measured reader memory db 0 (b'[' ∷ (3 ∷ [])) []
      ≡ some res)
load_dump_ends_example = load_dump_ends measured reader memory db 0 (b'[' ∷ (3 ∷ [])) []

-- A value with a comma behind it.
abbrev two_values : IStream
two_values = open_stream (json_to_string measured content false ++ (b',' ∷ []))

json_from_stream_lem_example :
    json_from_stream measured reader two_values
    ≡ ok (
      settled content,
      record two_values { position = 0 + length (json_to_string measured content false) },
    )
json_from_stream_lem_example =
    json_from_stream_lem measured reader two_values content b',' [] reader-IsStreamReader
      content-IsPlain tt refl refl

-- A tab and a letter.
abbrev tabbed : Bytes
tabbed = 9 ∷ (b'a' ∷ [])

unprint-print_bytes_example :
    (t : Bytes) × (print_bytes tabbed ≡ ok t)
    × All Printable t
    × (All {A = ℕ} (λ c. c ≢ b'\\') tabbed → unprint plain t ≡ tabbed)
unprint-print_bytes_example = unprint-print_bytes tabbed (omega arith, (omega arith, tt))

print_bytes-high_example : print_bytes (b'a' ∷ (200 ∷ [])) ≡ fail undefined
print_bytes-high_example = print_bytes-high (b'a' ∷ (200 ∷ [])) 1 200 refl (omega arith)

-- {"_id": "t", "metadata": {"track_id": "t"}}
abbrev track_with_id : JsonValue
track_with_id = submap (
    field id_text (str (b't' ∷ []))
      (field metadata_text (submap (field track_id_text (str (b't' ∷ [])) no_fields)) no_fields))

bench_couch-dump_from_example :
    (batches : List (List JsonValue)) × IsSplit batch_size
      (track_with_id ∷ (track_with_id ∷ []))
      batches
    × (bench_couch measured reader (b'[' ∷ dump_from measured track (track ∷ []) [])
        ≡ some (map (batch_text measured) batches, ok 0))
bench_couch-dump_from_example =
    bench_couch-dump_from measured reader reader-IsStreamReader track (track ∷ [])
      (track_with_id ∷ (track_with_id ∷ [])) [] track-IsDumpable (track-IsDumpable, tt)
      (unfold with_ids with_id settled index_key assign_key find_field set_field bytes_eq bytes_lt
          get_submap in
        refl)
