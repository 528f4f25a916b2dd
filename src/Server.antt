-- ===== src/Server.antt =====
-- The server: the strings and numbers on its socket (server/server_common.cpp), its two commands
-- and its session (server/server_main.cpp).
pub mod Wire
pub mod Commands
pub mod Requests
pub mod Session
use sofa_db.Prelude.{
  ℕ, zero, suc, ◌+◌, ◌*◌, ◌/◌, ◌%◌, ◌^◌, ◌-◌, Bool, true, false, not, List, [], ◌∷◌, ◌++◌, Option,
  none, some, length, take, drop, ltb, ◌==◌, if◌then◌else◌,
}
use sofa_db.Text.{Bytes, bytes_eq}
use sofa_db.Failure.{Result, ok, fail, out_of_range, system_error, ◌>>=◌, ◌>>◌, err, s_error}
use sofa_db.Json.Value.{JsonValue, nil}
use sofa_db.Json.Text.{string_to_json, json_to_string}
use sofa_db.Revision.{Revision, is_empty, parse_revision}
use sofa_db.Database.{
  Database, UpdateStatus, update_ok, update_conflict, update_conflict_won, update_conflict_lost,
  RevisionInfo,
}
use sofa_db.Database.Put.{put}
use sofa_db.Database.Get.{GetResult, Wanted, get}
use sofa_db.Engine.{LevelDb, DbEngine, create_storage, create_a_database}
use sofa_db.Externals.{Externals}

-- A socket: the bytes that will come, and those that were written.
pub record Socket : Type 0 where
  pub incoming : Bytes
  pub outgoing : Bytes

-- boost::asio::read of a number of bytes: it throws where the peer closes before.
unfoldable pub read_bytes : ℕ → Socket → Result (Bytes × Socket)
read_bytes n sock =
    if ltb (length sock.incoming) n
    then fail system_error
    else ok (take n sock.incoming, record sock { incoming = drop n sock.incoming })

-- boost::asio::write
abbrev pub write_bytes : Bytes → Socket → Socket
write_bytes s sock = record sock { outgoing = sock.outgoing ++ s }

-- htonl and ntohl, with the bytes as they stand in memory.
unfoldable pub htonl : ℕ → Bytes
htonl v = (v / 2 ^ 24) % 256 ∷ ((v / 2 ^ 16) % 256 ∷ ((v / 2 ^ 8) % 256 ∷ (v % 256 ∷ [])))

unfoldable pub ntohl : ℕ → Bytes → ℕ
ntohl acc [] = acc
ntohl acc (b ∷ s) = ntohl (acc * 256 + b) s

-- read_uint32
unfoldable pub read_uint32 : Socket → Result (ℕ × Socket)
read_uint32 sock = do (s, rest) ← read_bytes 4 sock; ok (ntohl 0 s, rest)

-- write_uint32
unfoldable pub write_uint32 : ℕ → Socket → Socket
unfolding htonl
write_uint32 v sock = write_bytes (htonl v) sock

-- read_str
unfoldable pub read_str : Socket → Result (Bytes × Socket)
read_str sock = do (n, rest) ← read_uint32 sock; read_bytes n rest

-- write_str
unfoldable pub write_str : Bytes → Socket → Result Socket
write_str s sock = do
  if ltb (2 ^ 32 - 1) (length s) then fail out_of_range else ok tt
  ok (write_bytes s (write_uint32 (length s) sock))
