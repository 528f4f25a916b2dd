-- ===== src/Server/Session/Rounds.antt =====
-- The rounds of a session (server/server_main.cpp), for a client's bytes that stand on the socket.
use sofa_db.Prelude.{
  ℕ, suc, ◌^◌, ◌<◌, ◌≡◌, ◌≢◌, refl, ◌∙◌, ap, true, false, List, [], ◌++◌, some, length,
  append_assoc, arith,
}
use sofa_db.Text.{Bytes, bytes_eq}
use sofa_db.Text.Order.{bytes_eq_iff}
use sofa_db.Failure.{Result, ok}
use sofa_db.Json.Value.{JsonValue}
use sofa_db.Json.Plain.{settled}
use sofa_db.Json.Text.{json_to_string}
use sofa_db.Revision.{Revision}
use sofa_db.Database.{Database}
use sofa_db.Database.Get.AfterPut.{latest, content_and_rev}
use sofa_db.Engine.{LevelDb, DbEngine, create_a_database, find_database}
use sofa_db.Externals.{Externals}
use sofa_db.Server.{Socket, read_str, htonl, write_uint32}
use sofa_db.Server.Wire.{socket, framed, read_str-framed, write_str-framed}
use sofa_db.Server.Commands.{answer_get, value_of, text_of, write_if}
use sofa_db.Server.Session.{dispatch, round, serve, find_engine, engine_for, close_session, session}

module _ (x : Externals) (l : LevelDb) (room : ℕ) where
  pub create_a_database-found :
      (now : ℕ) (name : Bytes) (e : DbEngine l) (db : Database)
      → find_database name e.databases ≡ some db
      → create_a_database x l now name e ≡ ok (db, e)
  unfolding create_a_database
  create_a_database-found now name e db h = rw (create_a_database, h) refl

  -- A round of a command for a database that the engine has, up to the command itself.
  pub round-dispatch :
      (now : ℕ) (command dbname rest out : Bytes) (e : DbEngine l) (db : Database)
      → length command < 2 ^ 32
      → length dbname < 2 ^ 32
      → dbname ≢ []
      → find_database dbname e.databases ≡ some db
      → round x l room now e (socket (framed command ++ (framed dbname ++ rest)) out)
        ≡ dispatch x l room command db e (socket rest out)
  unfolding round
  round-dispatch now command dbname rest out e db c n filled h =
      let named : bytes_eq dbname [] ≡ false = ground (arith, bytes_eq_iff dbname [], filled) in
      rw
        (
          read_str-framed command (framed dbname ++ rest) out c,
          read_str-framed dbname rest out n,
          named,
          create_a_database-found now dbname e db h,
        )
        refl

  pub serve-on :
      (clock : ℕ → ℕ) (fuel i : ℕ) (e e' : DbEngine l) (sock sock' : Socket)
      → round x l room (clock i) e sock ≡ ok (true, (e', sock'))
      → serve x l room clock (suc fuel) i e sock ≡ serve x l room clock fuel (suc i) e' sock'
  unfolding serve
  serve-on clock fuel i e e' sock sock' h = rw (serve, h) refl

  pub serve-done :
      (clock : ℕ → ℕ) (fuel i : ℕ) (e e' : DbEngine l) (sock sock' : Socket)
      → round x l room (clock i) e sock ≡ ok (false, (e', sock'))
      → serve x l room clock (suc fuel) i e sock ≡ some (ok (e', sock'))
  unfolding serve
  serve-done clock fuel i e e' sock sock' h = rw (serve, h) refl

  -- A session whose loop has ended.
  pub session-served :
      (opens : Bytes → l.State) (clock : ℕ → ℕ) (registry : List (Bytes × DbEngine l))
      (file : Bytes) (e : DbEngine l) (sock s1 : Socket) (r : Result (DbEngine l × Socket))
      → read_str sock ≡ ok (file, s1)
      → find_engine x l room file registry ≡ some e
      → serve x l room clock (suc (length s1.incoming)) 0 e s1 ≡ some r
      → session x l room opens clock registry sock ≡ some (close_session x l room registry file r)
  unfolding session engine_for
  session-served opens clock registry file e sock s1 r h k n =
      rw (session, h, engine_for, k, n) refl

  -- The bytes that a get which has found the document answers with.
  abbrev pub answered : JsonValue → Revision → Bytes
  answered content rev = htonl 1 ++ (framed (json_to_string x content false) ++ framed rev.stringed)

  pub answer_get-latest :
      (id rest out : Bytes) (num old : Revision) (content : JsonValue)
      → length (json_to_string x (settled content) false) < 2 ^ 32
      → length num.stringed < 2 ^ 32
      → answer_get x l content_and_rev (latest x id num old content) (socket rest out)
        ≡ ok (socket rest (out ++ answered (settled content) num))
  unfolding answer_get write_if value_of text_of write_uint32
  answer_get-latest id rest out num old content a b =
      rw
        (
          write_str-framed (json_to_string x (settled content) false) rest (out ++ htonl 1) a,
          write_str-framed num.stringed rest
              ((out ++ htonl 1) ++ framed (json_to_string x (settled content) false)) b,
        )
        (ap (λ b. ok (socket rest b))
          (append_assoc (out ++ htonl 1) (framed (json_to_string x (settled content) false))
              (framed num.stringed)
            ∙ append_assoc out (htonl 1)
                (framed (json_to_string x (settled content) false) ++ framed num.stringed)))
