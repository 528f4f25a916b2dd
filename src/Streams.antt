-- ===== src/Streams.antt =====
-- The streams that RapidJSON reads from and writes to: libsofadb/native_json_helpers.h.
pub mod Laws
pub mod Input
use sofa_db.Prelude.{
  ℕ, zero, suc, ◌+◌, ◌-◌, Bool, true, false, Option, none, some, List, [], ◌∷◌, ◌++◌, length, take,
  drop, get_elem?, ltb, leb, if◌then◌else◌,
}
use sofa_db.Text.{Bytes}

-- StringWriteStream::Put
unfoldable pub put_char : Bytes → ℕ → Bytes
put_char buf c = buf ++ (c ∷ [])

abbrev replicate : ℕ → ℕ → Bytes
replicate zero c = []
replicate (suc n) c = c ∷ replicate n c

-- StringWriteStream::PutN: append(n, c)
unfoldable pub put_n : Bytes → ℕ → ℕ → Bytes
put_n buf c n = buf ++ replicate n c

-- BufReadStream: `current` counts from the start of the buffer, and the buffer is that of a
-- std::string, which has a NUL behind its last byte.
pub record BufReadStream : Type 0 where
  pub buffer : Bytes
  pub current : ℕ
  pub eof : Bool

abbrev pub open_buffer : Bytes → BufReadStream
open_buffer s = record { buffer = s; current = 0; eof = false }

-- Peek
unfoldable pub peek : BufReadStream → ℕ
peek r = elim (get_elem? r.buffer r.current) [ none ↦ 0 | some c ↦ c ]

-- Read
unfoldable pub advance_read : BufReadStream → BufReadStream
advance_read r =
    if ltb r.current (length r.buffer)
    then record r { current = r.current + 1 }
    else record r { eof = true }

-- Take
unfoldable pub take_char : BufReadStream → ℕ × BufReadStream
unfolding peek advance_read
take_char r = (peek r, advance_read r)

-- Tell
abbrev pub tell : BufReadStream → ℕ
tell r = r.current

-- GetSubSequence
unfoldable pub get_sub_sequence : BufReadStream → ℕ → ℕ → Bytes
get_sub_sequence r pos ln =
    let sz = length r.buffer in
    if leb sz pos
    then []
    else if leb (sz - pos) ln
    then take (sz - pos) (drop pos r.buffer)
    else take ln (drop pos r.buffer)
