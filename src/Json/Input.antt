-- ===== src/Json/Input.antt =====
-- json_from_stream (libsofadb/native_json.cpp): a value read off a std::istream, with what follows
-- it left there.
use sofa_db.Prelude.{
  ℕ, suc, ◌+◌, ◌≡◌, refl, ap, ◌∙◌, Bool, false, ◌||◌, List, ◌∷◌, ◌++◌, Option, none, some, length,
  drop, drop_add, drop-first, drop-length_append, ◌==◌, arith,
}
use sofa_db.Text.{Bytes}
use sofa_db.Failure.{Result, ok, fail, bad_exception, ◌>>=◌}
use sofa_db.Json.Value.{JsonValue}
use sofa_db.Json.Events.{ReadEvent, print}
use sofa_db.Json.Plain.{IsPlain, IsRooted, settled}
use sofa_db.Json.Reading.{start, on_events}
use sofa_db.Json.Reading.Rebuild.{reads_root}
use sofa_db.Json.Text.{parse_from_stream, json_to_string}
use sofa_db.Streams.Input.{IStream, sub_sequence, get_char}
use sofa_db.Externals.{Externals, ParseError}
use sofa_db.Externals.Laws.{reread_all}

-- How Reader::Parse<kParseIgnoreTrailing> ends: after so many bytes, with an error or without one,
-- or with the exception of a Peek or Take at the end of the stream.
pub data ReaderEnd : Type 0 where
  ended : ℕ → Option ParseError → ReaderEnd
  starved : ReaderEnd

-- The calls that the reader makes of its handler, for what the stream has from a position on.
pub record StreamReader : Type 0 where
  pub scan_trailing : ℕ → Bytes → List ReadEvent × ReaderEnd

-- The white space of JSON.
abbrev pub is_space : ℕ → Bool
is_space c = c == 32 || (c == 9 || (c == 10 || c == 13))

-- RapidJSON reads back what it writes, if the root is an object or an array, and stops at what
-- follows it, if that is no white space.
pub record IsStreamReader (x : Externals) (t : StreamReader) : Type 0 where
  pub reads_first :
      (position : ℕ) (v : JsonValue) (c : ℕ) (rest : Bytes)
      → IsPlain v
      → IsRooted v
      → is_space c ≡ false
      → t.scan_trailing position (x.render (print v) ++ (c ∷ rest))
        ≡ (reread_all x (print v), ended (length (x.render (print v))) none)

module _ (x : Externals) (t : StreamReader) where
  -- What json_from_stream makes of the reader's end.
  unfoldable pub after_scan : IStream → List ReadEvent × ReaderEnd → Result (JsonValue × IStream)
  unfolding parse_from_stream sub_sequence
  after_scan r (events, ended n error) =
      let r' = record r { position = r.position + n } in
      parse_from_stream x (sub_sequence r') (events, error) >>= λ v. ok (v, r')
  after_scan r (events, starved) = on_events x.strtod events start >>= λ h. fail bad_exception

  -- json_from_stream
  unfoldable pub json_from_stream : IStream → Result (JsonValue × IStream)
  unfolding after_scan
  json_from_stream r = after_scan r (t.scan_trailing r.position (drop r.position r.content))

  -- json_from_stream reads the text of the value that the stream is at, and leaves the stream
  -- behind it.
  pub json_from_stream_lem :
      (r : IStream) (v : JsonValue) (c : ℕ) (rest : Bytes)
      → IsStreamReader x t
      → IsPlain v
      → IsRooted v
      → is_space c ≡ false
      → drop r.position r.content ≡ json_to_string x v false ++ (c ∷ rest)
      → json_from_stream r
        ≡ ok (settled v, record r { position = r.position + length (json_to_string x v false) })
  unfolding json_from_stream after_scan parse_from_stream json_to_string
  json_from_stream_lem r v c rest law p q n e =
      rw (e, law.reads_first r.position v c rest p q n, reads_root x v p q) refl

-- Where a stream is good, and what it has yet to read.
pub record IsAtText (r : IStream) (text : Bytes) : Type 0 where
  pub ahead : drop r.position r.content ≡ text
  pub not_eof : r.eofbit ≡ false
  pub not_failed : r.failbit ≡ false

module _ (x : Externals) (t : StreamReader) (law : IsStreamReader x t) where
  -- A value is read, and then the character behind it.
  pub next_value :
      (r : IStream) (v : JsonValue) (c : ℕ) (rest : Bytes)
      → IsPlain v
      → IsRooted v
      → is_space c ≡ false
      → IsAtText r (json_to_string x v false ++ (c ∷ rest))
      → (r' : IStream) × (json_from_stream x t r ≡ ok (settled v, r'))
        × ((get_char r').0 ≡ some c)
        × IsAtText (get_char r').1 rest
  unfolding get_char
  next_value r v c rest p q n h =
      let text = json_to_string x v false in
      let r' : IStream = record r { position = r.position + length text } in
      let there =
        drop_add r.position (length text) r.content
        ∙ ap (drop (length text)) h.ahead
        ∙ drop-length_append text (c ∷ rest) in
      let next : r.position + length text + 1 ≡ suc (r.position + length text) = omega arith in
      let (got, behind, inside) = drop-first (r.position + length text) r.content c rest there in
      (
        r',
        json_from_stream_lem x t r v c rest law p q n h.ahead,
        rw (h.not_eof, h.not_failed, got) refl,
        rw (h.not_eof, h.not_failed, got)
            (record {
              ahead = ap (λ k. drop k r.content) next ∙ behind;
              not_eof = h.not_eof;
              not_failed = h.not_failed;
            }),
      )
