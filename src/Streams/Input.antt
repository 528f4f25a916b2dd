-- ===== src/Streams/Input.antt =====
-- StdStreamReadStream (libsofadb/native_json_helpers.h) over a std::istream.
use sofa_db.Prelude.{
  ℕ, ◌+◌, Bool, true, false, ◌||◌, [], Option, none, some, length, take, drop, get_elem?, ltb,
  if◌then◌else◌,
}
use sofa_db.Text.{Bytes}
use sofa_db.Failure.{Result, ok, fail, bad_exception}

-- A std::istream over all that there is to read, with the position in it and its state bits.
pub record IStream : Type 0 where
  pub content : Bytes
  pub position : ℕ
  pub eofbit : Bool
  pub failbit : Bool

-- std::ifstream stream(file), where the file can be opened.
abbrev pub open_stream : Bytes → IStream
open_stream s = record { content = s; position = 0; eofbit = false; failbit = false }

-- std::streambuf::sgetc and sbumpc: `none` is eof, and the state bits are not touched.
abbrev pub sgetc : IStream → Option ℕ
sgetc r = get_elem? r.content r.position

unfoldable pub sbumpc : IStream → Option ℕ × IStream
sbumpc r = elim (sgetc r) [
  | none ↦ (none, r)
  | some c ↦ (some c, record r { position = r.position + 1 })
]

-- std::istream::get
unfoldable pub get_char : IStream → Option ℕ × IStream
get_char r = if r.eofbit || r.failbit then (none, record r { failbit = true }) else elim (sgetc r) [
  | none ↦ (none, record r { eofbit = true; failbit = true })
  | some c ↦ (some c, record r { position = r.position + 1 })
]

-- StdStreamReadStream::Peek
unfoldable pub peek_char : IStream → Result ℕ
peek_char r = elim (sgetc r) [ none ↦ fail bad_exception | some c ↦ ok c ]

-- read_more: std::istream::sync, which changes nothing that can be read.
abbrev pub read_more : IStream → IStream
read_more r = r

-- StdStreamReadStream::Take
unfoldable pub take_peeked : IStream → Result (ℕ × IStream)
unfolding sbumpc
take_peeked r = elim (sgetc r) [
  | none ↦ fail bad_exception
  | some res ↦
      let (bumped, r') = sbumpc r in
      elim bumped [ none ↦ ok (res, read_more r') | some c ↦ ok (res, r') ]
]

-- StdStreamReadStream::GetSubSequence: a position behind the end cannot be sought.
unfoldable pub sub_sequence : IStream → ℕ → ℕ → Bytes
sub_sequence r pos ln =
    if r.failbit || ltb (length r.content) pos then [] else take ln (drop pos r.content)
