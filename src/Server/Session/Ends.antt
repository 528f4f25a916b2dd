-- ===== src/Server/Session/Ends.antt =====
-- The end of a session (server/server_main.cpp).
use sofa_db.Prelude.{ℕ, zero, suc, ◌<◌, ◌≡◌, refl, Bool, true, false, List, some, length, arith}
use sofa_db.Text.{Bytes}
use sofa_db.Failure.{Result, ok, fail}
use sofa_db.Engine.{LevelDb, DbEngine}
use sofa_db.Externals.{Externals}
use sofa_db.Server.{Socket, read_str}
use sofa_db.Server.Session.Taken.{left, round-left}
use sofa_db.Server.Session.{session, engine_for, close_session, round, serve}

module _ (x : Externals) (l : LevelDb) (room : ℕ) where
  -- The loop ends with a result.
  abbrev pub HasEnd : (ℕ → ℕ) → ℕ → ℕ → DbEngine l → Socket → Type 0
  HasEnd clock fuel i e sock =
      (r : Result (DbEngine l × Socket)) × (serve x l room clock fuel i e sock ≡ some r)

  serve-HasEnd :
      (clock : ℕ → ℕ) (fuel i : ℕ) (e : DbEngine l) (sock : Socket)
      (r : Result (Bool × (DbEngine l × Socket)))
      → round x l room (clock i) e sock ≡ r
      → ((e' : DbEngine l) (sock' : Socket)
          → left sock' < left sock
          → HasEnd clock fuel (suc i) e' sock')
      → HasEnd clock (suc fuel) i e sock
  unfolding serve
  serve-HasEnd clock fuel i e sock (fail failure) eq go_on = (fail failure, rw (serve, eq) refl)
  serve-HasEnd clock fuel i e sock (ok (false, (e', sock'))) eq go_on =
      (ok (e', sock'), rw (serve, eq) refl)
  serve-HasEnd clock fuel i e sock (ok (true, (e', sock'))) eq go_on =
      let (r, ends) =
        go_on e' sock' (round-left x l room (clock i) e sock (true, (e', sock')) eq refl) in
      (r, rw (serve, eq) ends)

  -- A session's loop ends, with the engine and the socket or with an exception, whatever the
  -- client sends and the clock says: a unit of fuel for each byte that comes, and one more, is
  -- enough.
  pub serve_ends :
      (clock : ℕ → ℕ) (fuel i : ℕ) (e : DbEngine l) (sock : Socket)
      → left sock < fuel
      → (r : Result (DbEngine l × Socket)) × (serve x l room clock fuel i e sock ≡ some r)
  serve_ends clock zero i e sock h = elim h [ ]
  serve_ends clock (suc fuel) i e sock h =
      serve-HasEnd clock fuel i e sock (round x l room (clock i) e sock) refl
        (λ e' sock' shorter. serve_ends clock fuel (suc i) e' sock' (omega (arith, shorter, h)))

  session_after :
      (opens : Bytes → l.State) (clock : ℕ → ℕ) (registry : List (Bytes × DbEngine l))
      (sock : Socket) (start : Result (Bytes × Socket))
      → read_str sock ≡ start
      → (r : Result (List (Bytes × DbEngine l) × Socket)) × (session x l room opens clock registry
            sock
          ≡ some r)
  unfolding session
  session_after opens clock registry sock (fail failure) eq = (fail failure, rw (session, eq) refl)
  session_after opens clock registry sock (ok (file, s1)) eq =
      let (r, ends) =
        serve_ends clock (suc (length s1.incoming)) 0 (engine_for x l room opens registry file) s1
          (omega arith) in
      (close_session x l room registry file r, rw (session, eq, ends) refl)

  -- A session ends, whatever the client sends: with the registry and the socket, or with an
  -- exception.
  pub session_ends :
      (opens : Bytes → l.State) (clock : ℕ → ℕ) (registry : List (Bytes × DbEngine l))
      (sock : Socket)
      → (r : Result (List (Bytes × DbEngine l) × Socket)) × (session x l room opens clock registry
            sock
          ≡ some r)
  session_ends opens clock registry sock =
      session_after opens clock registry sock (read_str sock) refl
