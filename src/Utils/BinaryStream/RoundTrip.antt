-- ===== src/Utils/BinaryStream/RoundTrip.antt =====
-- Reading a number back from a buffer (libsofadb/binary_stream.hpp).
use sofa_db.Prelude.{
  ℕ, ◌+◌, ◌^◌, ◌<◌, ◌≡◌, refl, sym, ap, ◌∙◌, ◌++◌, some, length, length-append, append_assoc,
  take-length_append, drop-length_append, arith,
}
use sofa_db.Prelude.Int.{ℤ, pos, negsuc}
use sofa_db.Text.{Bytes}
use sofa_db.Failure.{ok}
use sofa_db.Failure.Laws.{>>=-ok, ok-injective}
use sofa_db.Server.{htonl}
use sofa_db.Server.Wire.{ntohl-htonl}
use sofa_db.Utils.BinaryStream.{
  to_signed4, write_sint4, BufInputStream, read, to_signed, read_number, read_sint4,
}

-- A stream over a buffer whose first bytes have been read.
abbrev pub stream_at : Bytes → Bytes → BufInputStream
stream_at before rest = record { buffer = before ++ rest; position = some (length before) }

read-middle :
    (before s rest : Bytes)
    → read (length s) (stream_at before (s ++ rest))
      ≡ ok
          (s, record { buffer = before ++ (s ++ rest); position = some (length before + length s) })
unfolding read
read-middle before s rest = ground (
  arith,
  length-append {0} before (s ++ rest),
  length-append {0} s rest,
  drop-length_append before (s ++ rest),
  take-length_append s rest,
)

read-htonl :
    (v : ℕ) (before rest : Bytes)
    → read 4 (stream_at before (htonl v ++ rest))
      ≡ ok (
        htonl v,
        record { buffer = before ++ (htonl v ++ rest); position = some (length before + 4) },
      )
unfolding htonl
read-htonl v before rest = read-middle before (htonl v) rest

read_number-htonl :
    (v : ℕ) (before rest : Bytes)
    → v < 2 ^ 32
    → read_number 4 (stream_at before (htonl v ++ rest))
      ≡ ok (v, record { buffer = before ++ (htonl v ++ rest); position = some (length before + 4) })
unfolding read_number
read_number-htonl v before rest h = rw (read-htonl v before rest, ntohl-htonl v h) refl

to_signed-to_signed4 : (v : ℤ) (n : ℕ) → to_signed4 v ≡ ok n → (n < 2 ^ 32) × (to_signed 32 n ≡ v)
unfolding to_signed4 to_signed
to_signed-to_signed4 (pos k) n h = ground arith
to_signed-to_signed4 (negsuc k) n h = ground arith

-- What write_sint4 has accepted is read back by read_sint4 from the place where it was written,
-- negative numbers too, whatever stands before and behind it.
pub read_sint4-write_sint4 :
    (v : ℤ) (before after rest : Bytes)
    → write_sint4 v before ≡ ok after
    → read_sint4 (record { buffer = after ++ rest; position = some (length before) })
      ≡ ok (v, record { buffer = after ++ rest; position = some (length before + 4) })
unfolding write_sint4
read_sint4-write_sint4 v before after rest h =
    let (n, e, taken) = >>=-ok _ (to_signed4 v) h in
    let (fits, same) = to_signed-to_signed4 v n taken in
    let whole = ap (λ t. t ++ rest) (sym (ok-injective e)) ∙ append_assoc before (htonl n) rest in
    rw (whole, read_number-htonl n before rest fits, same) refl
