-- ===== src/Server/Session.antt =====
-- session (server/server_main.cpp): the loop over a client's commands. Sessions of other clients,
-- which run in other threads, are not modelled, and neither is what a command that throws leaves:
-- the session ends with the exception, which the source prints.
pub mod Taken
pub mod Rounds
pub mod Served
pub mod Ends
use sofa_db.Prelude.{
  ℕ, zero, suc, ◌+◌, Bool, true, false, not, List, [], ◌∷◌, ◌++◌, Option, none, some, length,
  if◌then◌else◌,
}
use sofa_db.Text.{Bytes, bytes_eq}
use sofa_db.Failure.{Result, ok, fail, undefined, ◌>>=◌, ◌>>◌, err, s_error}
use sofa_db.Database.{Database}
use sofa_db.Engine.{LevelDb, DbEngine, create_a_database}
use sofa_db.Externals.{Externals}
use sofa_db.Server.{Socket, read_str}
use sofa_db.Server.Commands.{do_document_get, do_command_put}

-- "Empty database", "Unknown command ", "GET", "PUT" and "FIN"
abbrev pub empty_database : Bytes
empty_database =
    b'E' ∷ b'm' ∷ b'p' ∷ b't' ∷ b'y' ∷ b' ' ∷ b'd' ∷ b'a' ∷ b't' ∷ b'a' ∷ b'b' ∷ b'a' ∷ b's' ∷ b'e'
    ∷ []

abbrev pub unknown_command : Bytes
unknown_command =
    b'U' ∷ b'n' ∷ b'k' ∷ b'n' ∷ b'o' ∷ b'w' ∷ b'n' ∷ b' ' ∷ b'c' ∷ b'o' ∷ b'm' ∷ b'm' ∷ b'a' ∷ b'n'
    ∷ b'd' ∷ b' ' ∷ []

abbrev pub get_text : Bytes
get_text = b'G' ∷ b'E' ∷ b'T' ∷ []

abbrev pub put_text : Bytes
put_text = b'P' ∷ b'U' ∷ b'T' ∷ []

abbrev pub fin_text : Bytes
fin_text = b'F' ∷ b'I' ∷ b'N' ∷ []

module _ (x : Externals) (l : LevelDb) (room : ℕ) where
  -- The commands by their names; the flag says whether the loop goes on.
  unfoldable pub dispatch :
      Bytes → Database → DbEngine l → Socket → Result (Bool × (DbEngine l × Socket))
  dispatch command db e sock =
      if bytes_eq command get_text
      then (do_document_get x l db e.keystore sock >>= λ sock'. ok (true, (e, sock')))
      else if bytes_eq command put_text
      then (do_command_put x l db room e.keystore sock >>= λ done.
          ok (true, (record e { keystore = done.0 }, done.1)))
      else if bytes_eq command fin_text
      then ok (false, (e, sock))
      else err s_error (unknown_command ++ command) >> ok (false, (e, sock))

  -- One round of the loop. last_db_name stays empty, and last_db a null pointer.
  unfoldable pub round : ℕ → DbEngine l → Socket → Result (Bool × (DbEngine l × Socket))
  round now e sock = do
    (command, s1) ← read_str sock
    (dbname, s2) ← read_str s1
    if bytes_eq dbname [] then err s_error empty_database else ok tt
    (db, e') ← if bytes_eq dbname [] then fail undefined else create_a_database x l now dbname e
    dispatch command db e' s2

  -- The loop, where the i-th round is at the time `clock i`. A round spends a unit of fuel; `none`
  -- says that there is none left.
  unfoldable pub serve :
      (ℕ → ℕ) → ℕ → ℕ → DbEngine l → Socket → Option (Result (DbEngine l × Socket))
  serve clock zero i e sock = none
  serve clock (suc fuel) i e sock = elim (round (clock i) e sock) [
    | fail failure ↦ some (fail failure)
    | ok (true, (e', sock')) ↦ serve clock fuel (suc i) e' sock'
    | ok (false, (e', sock')) ↦ some (ok (e', sock'))
  ]

  -- registry->engines_[dbfile]
  unfoldable pub find_engine : Bytes → List (Bytes × DbEngine l) → Option (DbEngine l)
  find_engine file [] = none
  find_engine file ((key, e) ∷ rest) = if bytes_eq key file then some e else find_engine file rest

  -- A shared engine is the one of the registry: its new state is put under its name.
  unfoldable pub set_engine :
      Bytes → DbEngine l → List (Bytes × DbEngine l) → List (Bytes × DbEngine l)
  set_engine file e [] = (file, e) ∷ []
  set_engine file e ((key, old) ∷ rest) =
      if bytes_eq key file then (key, e) ∷ rest else (key, old) ∷ set_engine file e rest

  -- The engine of a file: DbEngine(dbfile, false) is `opens dbfile`, the keystore that DB::Open
  -- gives.
  unfoldable pub engine_for : (Bytes → l.State) → List (Bytes × DbEngine l) → Bytes → DbEngine l
  unfolding find_engine
  engine_for opens registry file = elim (find_engine file registry) [
    | none ↦ record { keystore = opens file; databases = [] }
    | some e ↦ e
  ]

  -- What a session leaves in the registry when its loop has ended.
  unfoldable pub close_session :
      List (Bytes × DbEngine l)
      → Bytes
      → Result (DbEngine l × Socket)
      → Result (List (Bytes × DbEngine l) × Socket)
  unfolding set_engine
  close_session registry file r = do (e, sock) ← r; ok (set_engine file e registry, sock)

  -- session. The fuel is one more than the bytes that come.
  unfoldable pub session :
      (Bytes → l.State)
      → (ℕ → ℕ)
      → List (Bytes × DbEngine l)
      → Socket
      → Option (Result (List (Bytes × DbEngine l) × Socket))
  session opens clock registry sock = elim (read_str sock) [
    | fail failure ↦ some (fail failure)
    | ok (file, s1) ↦
        elim (serve clock (suc (length s1.incoming)) 0 (engine_for opens registry file) s1) [
          | none ↦ none
          | some r ↦ some (close_session registry file r)
        ]
  ]
