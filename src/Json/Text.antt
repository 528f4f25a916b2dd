-- ===== src/Json/Text.antt =====
-- Text to value and back: string_to_json, json_to_string and the json_stream that writes a value
-- piece by piece (libsofadb/native_json.cpp, json_stream.h).
pub mod RoundTrip
pub mod Stream
use sofa_db.Prelude.{
  ℕ, zero, suc, ◌+◌, ◌-◌, Bool, true, false, ◌||◌, List, [], ◌∷◌, ◌++◌, Option, none, some, ltb,
  ◌==◌, if◌then◌else◌,
}
use sofa_db.Prelude.Int.{ℤ}
use sofa_db.Text.{Bytes, bytes_eq}
use sofa_db.Failure.{Result, ok, fail, ◌>>=◌, ◌>>◌, err, s_wrong_revision}
use sofa_db.Json.Value.{JsonValue}
use sofa_db.Json.Events.{WriteEvent, ReadEvent, print}
use sofa_db.Json.Reading.{Handler, start, on_events}
use sofa_db.Externals.{Externals, ParseError}
use sofa_db.Streams.{BufReadStream, open_buffer, get_sub_sequence, put_n}

-- Tabs and line ends become spaces.
unfoldable pub blank_out : Bytes → Bytes
blank_out [] = []
blank_out (c ∷ s) = (if c == 9 || (c == 10 || c == 13) then 32 else c) ∷ blank_out s

-- " (unknown location)", "Near: ", six spaces and "^(here)"
abbrev unknown_location : Bytes
unknown_location =
    b' ' ∷ b'(' ∷ b'u' ∷ b'n' ∷ b'k' ∷ b'n' ∷ b'o' ∷ b'w' ∷ b'n' ∷ b' ' ∷ b'l' ∷ b'o' ∷ b'c' ∷ b'a'
    ∷ b't' ∷ b'i' ∷ b'o' ∷ b'n' ∷ b')' ∷ []

abbrev near : Bytes
near = b'N' ∷ b'e' ∷ b'a' ∷ b'r' ∷ b':' ∷ b' ' ∷ []

abbrev indent : Bytes
indent = b' ' ∷ b' ' ∷ b' ' ∷ b' ' ∷ b' ' ∷ b' ' ∷ []

abbrev here : Bytes
here = b'^' ∷ b'(' ∷ b'h' ∷ b'e' ∷ b'r' ∷ b'e' ∷ b')' ∷ []

-- The part of parse_from_stream under HasParseError: the text around the error, with a mark.
-- `sub` is GetSubSequence.
unfoldable pub report : (ℕ → ℕ → Bytes) → ParseError → Result (Unit {0})
unfolding blank_out put_n
report sub e =
    let offset = if ltb 25 e.offset then e.offset - 25 else e.offset in
    let str = sub offset 40 in
    do
      if bytes_eq str [] then err s_wrong_revision (e.message ++ unknown_location) else ok tt
      err s_wrong_revision (
          e.message
          ++ (10
              ∷ (near
                  ++ (blank_out str
                      ++ (10 ∷ (indent ++ (put_n [] 32 (e.offset - offset) ++ here)))))))

module _ (x : Externals) where
  -- parse_from_stream, for what the reader has reported and GetSubSequence of the stream. The
  -- handler has run when the reader ends with an error.
  unfoldable pub parse_from_stream :
      (ℕ → ℕ → Bytes) → List ReadEvent × Option ParseError → Result JsonValue
  unfolding report
  parse_from_stream sub (events, error) = do
    h ← on_events x.strtod events start
    elim error [ none ↦ ok h.res | some e ↦ report sub e >> ok h.res ]

  -- string_to_json
  unfoldable pub string_to_json : Bytes → Result JsonValue
  unfolding parse_from_stream get_sub_sequence
  string_to_json s =
      let istr = open_buffer s in parse_from_stream (get_sub_sequence istr) (x.scan istr.buffer)

  -- json_to_string
  unfoldable pub json_to_string : JsonValue → Bool → Bytes
  json_to_string v pretty = if pretty then x.render_pretty (print v) else x.render (print v)
