-- ===== src/Server/Wire.antt =====
-- Reading from a socket what was written to one (server/server_common.cpp).
use sofa_db.Prelude.{
  ℕ, ◌^◌, ◌<◌, ◌≡◌, refl, ◌++◌, length, length-append, append_assoc, take-length_append,
  drop-length_append, arith,
}
use sofa_db.Text.{Bytes}
use sofa_db.Failure.{ok}
use sofa_db.Server.{
  Socket, read_bytes, htonl, ntohl, read_uint32, write_uint32, read_str, write_str,
}

abbrev pub socket : Bytes → Bytes → Socket
socket incoming outgoing = record { incoming = incoming; outgoing = outgoing }

-- A string as it stands on the socket.
abbrev pub framed : Bytes → Bytes
framed s = htonl (length s) ++ s

read_bytes-append :
    (s rest out : Bytes) → read_bytes (length s) (socket (s ++ rest) out) ≡ ok (s, socket rest out)
unfolding read_bytes
read_bytes-append s rest out =
    ground (arith, length-append {0} s rest, take-length_append s rest, drop-length_append s rest)

pub ntohl-htonl : (v : ℕ) → v < 2 ^ 32 → ntohl 0 (htonl v) ≡ v
unfolding ntohl htonl
ntohl-htonl v h = omega arith

read_bytes-htonl :
    (v : ℕ) (rest out : Bytes)
    → read_bytes 4 (socket (htonl v ++ rest) out) ≡ ok (htonl v, socket rest out)
unfolding htonl
read_bytes-htonl v rest out = read_bytes-append (htonl v) rest out

-- A number that fits is read back from its four bytes, and what follows them is left.
pub read_uint32-htonl :
    (v : ℕ) (rest out : Bytes)
    → v < 2 ^ 32
    → read_uint32 (socket (htonl v ++ rest) out) ≡ ok (v, socket rest out)
unfolding read_uint32
read_uint32-htonl v rest out h = rw (read_bytes-htonl v rest out, ntohl-htonl v h) refl

pub read_str-framed :
    (s rest out : Bytes)
    → length s < 2 ^ 32
    → read_str (socket (framed s ++ rest) out) ≡ ok (s, socket rest out)
unfolding read_str
read_str-framed s rest out h =
    rw (append_assoc (htonl (length s)) s rest, read_uint32-htonl (length s) (s ++ rest) out h)
      (read_bytes-append s rest out)

pub write_str-framed :
    (s rest out : Bytes)
    → length s < 2 ^ 32
    → write_str s (socket rest out) ≡ ok (socket rest (out ++ framed s))
unfolding write_str write_uint32
write_str-framed s rest out h = ground (arith, append_assoc out (htonl (length s)) s)

-- Writing a string whose length fits puts its framed bytes behind what was written, and reading
-- the framed bytes gives the string and leaves what follows.
pub read_str-write_str :
    (s rest written out : Bytes)
    → length s < 2 ^ 32
    → (write_str s (socket rest written) ≡ ok (socket rest (written ++ framed s)))
      × (read_str (socket (framed s ++ rest) out) ≡ ok (s, socket rest out))
read_str-write_str s rest written out h =
    (write_str-framed s rest written h, read_str-framed s rest out h)
