-- ===== src/Tests/Dialogues.antt =====
-- A session of one client with the server, over a LevelDB in memory.
use sofa_db.Prelude.{◌≡◌, refl, inl, inr, List, [], ◌∷◌, ◌++◌, some, arith, Option-cases}
use sofa_db.Text.{Bytes, bytes_eq, decimal_ℤ}
use sofa_db.Failure.{ok}
use sofa_db.Json.Plain.{settled}
use sofa_db.Json.Events.{print}
use sofa_db.Json.Text.{json_to_string}
use sofa_db.Revision.{make_revision}
use sofa_db.Storage.Memory.{lookup_in}
use sofa_db.Database.{hex_text}
use sofa_db.Database.Put.{compute_revision}
use sofa_db.Engine.{DbEngine, find_database}
use sofa_db.Engine.Reliable.{IsReliable}
use sofa_db.Server.{htonl}
use sofa_db.Server.Wire.{socket, framed}
use sofa_db.Server.Session.{session, find_engine, set_engine}
use sofa_db.Server.Session.Rounds.{answered}
use sofa_db.Server.Session.Served.{
  put_command, get_command, fin_command, new_rev, after_put, IsSendable, session-put_get,
}
use sofa_db.Tests.Codec.{libraries, documented}
use sofa_db.Tests.Data.{db, doc, content}
use sofa_db.Tests.Documents.{content-IsPlain}
use sofa_db.Tests.Engines.{level, level-IsDocumented}
use sofa_db.Tests.Sessions.{reads_content, content_text}

level-IsReliable : IsReliable level
unfolding lookup_in
level-IsReliable = record {
  puts_well = λ sync k v st. refl;
  gets_well = λ k st. elim (Option-cases (lookup_in k st)) [
    | inl e ↦ inr (rw e refl)
    | inr (v, e) ↦ inl (rw e refl)
  ];
}

-- An engine that has the database, and a registry that has the engine.
abbrev engine : DbEngine level
engine = record { keystore = []; databases = (doc, db) ∷ [] }

abbrev registry : List (Bytes × DbEngine level)
registry = (doc, engine) ∷ []

sendable :
    IsSendable libraries level 0 documented level-IsDocumented level-IsReliable db refl doc doc
      content_text content engine
unfolding json_to_string compute_revision print decimal_ℤ make_revision hex_text settled
sendable = record {
  dbname_fits = omega arith;
  dbname_filled = λ e. cc;
  id_fits = omega arith;
  id_filled = λ e. cc;
  doc_fits = omega arith;
  rev_fits = omega arith;
  content_fits = omega arith;
}

session-put_get_example :
    session libraries level 0
      (λ file. [])
      (λ i. i)
      registry
      (socket
        (framed doc
          ++ put_command doc doc [] content_text (get_command doc 6 doc [] (fin_command doc [])))
        [])
    ≡ some (
        ok (
          set_engine libraries level 0 doc
              (after_put libraries level 0 documented level-IsDocumented level-IsReliable db refl
                doc doc content_text content engine)
              registry,
          socket [] (
              (htonl 0
                ++ framed
                    (new_rev libraries level 0 documented level-IsDocumented level-IsReliable db
                      refl doc doc content_text content engine).stringed)
              ++ answered libraries level 0 (settled content) (
                  new_rev libraries level 0 documented level-IsDocumented level-IsReliable db refl
                    doc doc content_text content engine)),
        ))
session-put_get_example =
    session-put_get libraries level 0 documented level-IsDocumented level-IsReliable db refl doc doc
      content_text content engine sendable (unfold find_database bytes_eq in refl) reads_content
      content-IsPlain (unfold lookup_in in refl) (λ file. []) (λ i. i) registry doc [] (omega arith)
      (unfold find_engine bytes_eq in refl)
