-- ===== src/Utils/BinaryStream.antt =====
-- utils::output_stream, buf_stream, input_stream and buf_input_stream
-- (libsofadb/binary_stream.hpp): numbers in network order in a buffer.
pub mod RoundTrip
use sofa_db.Prelude.{
  ℕ, zero, suc, ◌+◌, ◌*◌, ◌/◌, ◌%◌, ◌^◌, ◌-◌, Bool, true, false, List, [], ◌∷◌, ◌++◌, Option, none,
  some, length, take, drop, ltb, if◌then◌else◌,
}
use sofa_db.Prelude.Int.{ℤ, pos, negsuc}
use sofa_db.Text.{Bytes}
use sofa_db.Failure.{Result, ok, fail, out_of_range, bad_cast, ◌>>=◌}
use sofa_db.Server.{htonl, ntohl}

-- boost::numeric_cast to an unsigned type of a width: bad_numeric_cast is a bad_cast.
unfoldable pub to_unsigned : ℕ → ℤ → Result ℕ
to_unsigned width (pos n) = if ltb n (2 ^ width) then ok n else fail bad_cast
to_unsigned width (negsuc n) = fail bad_cast

-- numeric_cast<int32_t>, and the conversion to the uint32_t of write_int4_0.
unfoldable pub to_signed4 : ℤ → Result ℕ
to_signed4 (pos n) = if ltb n (2 ^ 31) then ok n else fail bad_cast
to_signed4 (negsuc n) = if ltb n (2 ^ 31) then ok (2 ^ 32 - 1 - n) else fail bad_cast

-- htons
unfoldable pub htons : ℕ → Bytes
htons v = (v / 2 ^ 8) % 256 ∷ (v % 256 ∷ [])

-- write_byte, write_uint2, write_uint4 and write_sint4, on the buffer of a buf_stream.
unfoldable pub write_byte : ℤ → Bytes → Result Bytes
unfolding to_unsigned
write_byte v buffer = do n ← to_unsigned 8 v; ok (buffer ++ (n ∷ []))

unfoldable pub write_uint2 : ℤ → Bytes → Result Bytes
unfolding to_unsigned
write_uint2 v buffer = do n ← to_unsigned 16 v; ok (buffer ++ htons n)

unfoldable pub write_uint4 : ℤ → Bytes → Result Bytes
unfolding to_unsigned
write_uint4 v buffer = do n ← to_unsigned 32 v; ok (buffer ++ htonl n)

unfoldable pub write_sint4 : ℤ → Bytes → Result Bytes
unfolding to_signed4
write_sint4 v buffer = do n ← to_signed4 v; ok (buffer ++ htonl n)

-- buf_input_stream: `position` is none until the first read, when it is put at the start.
pub record BufInputStream : Type 0 where
  pub buffer : Bytes
  pub position : Option ℕ

unfoldable pub position_of : Option ℕ → ℕ
position_of none = 0
position_of (some p) = p

-- read
unfoldable pub read : ℕ → BufInputStream → Result (Bytes × BufInputStream)
unfolding position_of
read bytes s =
    let at = position_of s.position in
    if ltb (length s.buffer - at) bytes
    then fail out_of_range
    else ok (take bytes (drop at s.buffer), record s { position = some (at + bytes) })

-- static_cast to a signed type of a width.
unfoldable pub to_signed : ℕ → ℕ → ℤ
to_signed width n = if ltb n (2 ^ (width - 1)) then pos n else negsuc (2 ^ width - 1 - n)

-- read_byte, read_uint2, read_sint2, read_uint4 and read_sint4
unfoldable pub read_number : ℕ → BufInputStream → Result (ℕ × BufInputStream)
read_number bytes s = do (b, s') ← read bytes s; ok (ntohl 0 b, s')

abbrev pub read_byte : BufInputStream → Result (ℕ × BufInputStream)
read_byte s = read_number 1 s

abbrev pub read_uint2 : BufInputStream → Result (ℕ × BufInputStream)
read_uint2 s = read_number 2 s

abbrev pub read_uint4 : BufInputStream → Result (ℕ × BufInputStream)
read_uint4 s = read_number 4 s

abbrev pub read_sint2 : BufInputStream → Result (ℤ × BufInputStream)
read_sint2 s = do (n, s') ← read_uint2 s; ok (to_signed 16 n, s')

abbrev pub read_sint4 : BufInputStream → Result (ℤ × BufInputStream)
read_sint4 s = do (n, s') ← read_uint4 s; ok (to_signed 32 n, s')
