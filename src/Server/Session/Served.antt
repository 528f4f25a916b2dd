-- ===== src/Server/Session/Served.antt =====
-- A session that puts a document and gets it (server/server_main.cpp), from the bytes of the client
-- to the bytes of the answers.
use sofa_db.Prelude.{
  ℕ, suc, ◌^◌, ◌<◌, ◌≡◌, ◌≢◌, refl, ◌∙◌, ap, true, false, List, [], ◌++◌, none, some, length,
  append_assoc, arith,
}
use sofa_db.Text.{Bytes, bytes_eq}
use sofa_db.Failure.{ok}
use sofa_db.Json.Value.{JsonValue}
use sofa_db.Json.Plain.{IsPlain, settled}
use sofa_db.Json.Text.{string_to_json, json_to_string}
use sofa_db.Revision.{Revision, empty_revision, is_empty, parse_revision}
use sofa_db.Storage.{IsMap}
use sofa_db.Database.{Database, make_path}
use sofa_db.Database.Put.{put}
use sofa_db.Database.Put.Logs.{first_log}
use sofa_db.Database.Put.Effects.{assigned, stored, accepted, put-first}
use sofa_db.Database.Get.{get}
use sofa_db.Database.Get.AfterPut.{get-put_first, latest, content_and_rev}
use sofa_db.Engine.{LevelDb, DbEngine, create_storage, find_database}
use sofa_db.Engine.Store.{IsDocumented}
use sofa_db.Engine.Reliable.{IsReliable, create_storage-IsMap, found_in}
use sofa_db.Externals.{Externals}
use sofa_db.Externals.Laws
use sofa_db.Server.{htonl}
use sofa_db.Server.Wire.{socket, framed, read_str-framed}
use sofa_db.Server.Commands.{status_value, wanted_of}
use sofa_db.Server.Requests.{do_command_put-request, do_document_get-request}
use sofa_db.Server.Session.{
  dispatch, round, serve, find_engine, set_engine, close_session, session, get_text, put_text,
  fin_text,
}
use sofa_db.Server.Session.Rounds.{
  round-dispatch, serve-on, serve-done, session-served, answer_get-latest, answered,
}

-- The commands as a client frames them, before what it sends next.
abbrev pub put_command : Bytes → Bytes → Bytes → Bytes → Bytes → Bytes
put_command dbname id rev doc rest =
    framed put_text ++ (framed dbname ++ (framed id ++ (framed rev ++ (framed doc ++ rest))))

abbrev pub get_command : Bytes → ℕ → Bytes → Bytes → Bytes → Bytes
get_command dbname params id rev rest =
    framed get_text ++ (framed dbname ++ (htonl params ++ (framed id ++ (framed rev ++ rest))))

abbrev pub fin_command : Bytes → Bytes → Bytes
fin_command dbname rest = framed fin_text ++ (framed dbname ++ rest)

module _ (x : Externals) (l : LevelDb) (room : ℕ) (d : Laws.IsDocumented x) (level : IsDocumented l)
    (reliable : IsReliable l) (db : Database) (is_open : db.closed ≡ false) (dbname id doc : Bytes)
    (content : JsonValue) (e : DbEngine l) where
  abbrev map : IsMap (create_storage l false)
  map = create_storage-IsMap l level reliable

  -- The revision that the put assigns, and the engine after it.
  abbrev pub new_rev : Revision
  new_rev = assigned x (create_storage l false) map empty_revision content

  abbrev pub after_put : DbEngine l
  after_put = record e {
    keystore =
        stored x (create_storage l false) map (make_path db id) empty_revision content
          (first_log empty_revision new_rev) e.keystore;
  }

  -- What the client sends fits its frames, and the answer too.
  pub record IsSendable : Type 0 where
    pub dbname_fits : length dbname < 2 ^ 32
    pub dbname_filled : dbname ≢ []
    pub id_fits : length id < 2 ^ 32
    pub id_filled : id ≢ []
    pub doc_fits : length doc < 2 ^ 32
    pub rev_fits : length new_rev.stringed < 2 ^ 32
    pub content_fits : length (json_to_string x (settled content) false) < 2 ^ 32

  module _ (sendable : IsSendable) (has_db : find_database dbname e.databases ≡ some db)
      (reads : string_to_json x doc ≡ ok content) (plain : IsPlain content)
      (fresh : found_in l level reliable (make_path db id) e.keystore ≡ none) where
    put_returns :
        put x (create_storage l false) db room id empty_revision content false e.keystore
        ≡ ok (
          accepted x
              (create_storage l false)
              map
              empty_revision
              content
              (first_log empty_revision new_rev),
          after_put.keystore,
        )
    put_returns =
        put-first x d (create_storage l false) map db room id empty_revision content e.keystore
          is_open false (omega arith) fresh

    get_returns :
        get x (create_storage l false) db id none content_and_rev after_put.keystore
        ≡ ok (latest x id new_rev empty_revision content)
    get_returns =
        let whole =
          get-put_first x d (create_storage l false) map db room id empty_revision content
            e.keystore is_open plain (unfold parse_revision in refl) false (omega arith) fresh in
        rw put_returns at whole

    put_round :
        (now : ℕ) (rest out : Bytes)
        → round x l room now e (socket (put_command dbname id [] doc rest) out)
          ≡ ok (true, (after_put, socket rest (out ++ (htonl 0 ++ framed new_rev.stringed))))
    unfolding dispatch bytes_eq status_value
    put_round now rest out =
        round-dispatch x l room now put_text dbname
          (framed id ++ (framed [] ++ (framed doc ++ rest))) out e db (omega arith)
          sendable.dbname_fits sendable.dbname_filled has_db
        ∙ rw
            (do_command_put-request x l db e.keystore room id [] doc rest out empty_revision content
              (accepted x (create_storage l false) map empty_revision content
                (first_log empty_revision new_rev))
              after_put.keystore
              (record {
                id_fits = sendable.id_fits;
                rev_fits = omega arith;
                doc_fits = sendable.doc_fits;
                filled = sendable.id_filled;
              })
              (unfold parse_revision in refl) reads put_returns sendable.rev_fits)
            (ap (λ b. ok (true, (after_put, socket rest b)))
              (append_assoc out (htonl 0) (framed new_rev.stringed)))

    get_round :
        (now : ℕ) (rest out : Bytes)
        → round x l room now after_put (socket (get_command dbname 6 id [] rest) out)
          ≡ ok (true, (after_put, socket rest (out ++ answered x l room (settled content) new_rev)))
    unfolding dispatch bytes_eq
    get_round now rest out =
        round-dispatch x l room now get_text dbname (htonl 6 ++ (framed id ++ (framed [] ++ rest)))
          out after_put db (omega arith) sendable.dbname_fits sendable.dbname_filled has_db
        ∙ rw
            (do_document_get-request x l db after_put.keystore 6 id [] rest out empty_revision
              (ok (latest x id new_rev empty_revision content)) (omega arith)
              (record {
                id_fits = sendable.id_fits;
                rev_fits = omega arith;
                doc_fits = omega arith;
                filled = sendable.id_filled;
              })
              (unfold parse_revision in refl) (unfold is_empty wanted_of in get_returns))
            (unfold wanted_of in
              rw
                (answer_get-latest x l room id rest out new_rev empty_revision content
                  sendable.content_fits sendable.rev_fits)
                refl)

    fin_round :
        (now : ℕ) (rest out : Bytes)
        → round x l room now after_put (socket (fin_command dbname rest) out)
          ≡ ok (false, (after_put, socket rest out))
    unfolding dispatch bytes_eq
    fin_round now rest out =
        round-dispatch x l room now fin_text dbname rest out after_put db (omega arith)
          sendable.dbname_fits sendable.dbname_filled has_db

    serve-put_get :
        (clock : ℕ → ℕ) (fuel i : ℕ) (rest out : Bytes)
        → serve x l room clock (suc (suc (suc fuel))) i e (
            socket
              (put_command dbname id [] doc (get_command dbname 6 id [] (fin_command dbname rest)))
              out)
          ≡ some (
              ok (
                after_put,
                socket rest (
                    (out ++ (htonl 0 ++ framed new_rev.stringed))
                    ++ answered x l room (settled content) new_rev),
              ))
    serve-put_get clock fuel i rest out =
        serve-on x l room clock (suc (suc fuel)) i e after_put _ _
          (put_round (clock i) (get_command dbname 6 id [] (fin_command dbname rest)) out)
        ∙ serve-on x l room clock (suc fuel) (suc i) after_put after_put _ _ (
            get_round (clock (suc i)) (fin_command dbname rest)
              (out ++ (htonl 0 ++ framed new_rev.stringed)))
        ∙ serve-done x l room clock fuel (suc (suc i)) after_put after_put _ _ (
            fin_round (clock (suc (suc i))) rest (
              (out ++ (htonl 0 ++ framed new_rev.stringed))
              ++ answered x l room (settled content) new_rev))

    -- A client that names an engine's file, puts a document, naming no old revision, gets its
    -- content and its revision and takes its leave is answered with UPDATE_OK and the assigned
    -- revision, and then with the text of the content that it put, in which the big integers
    -- that fit an int64_t are ints, and with that revision; the session ends, and the registry
    -- holds the engine with the put's body and log. The engine of the file has been opened and
    -- has the database, which is open and holds no log of the document, LevelDB does not fail,
    -- the document is read as a content that holds no double and no empty key and whose ints
    -- fit an int64_t, whose maps are in order and whose big integers are decimal texts, no name
    -- is empty, and the texts fit the 32 bits that frame them.
    pub session-put_get :
        (opens : Bytes → l.State) (clock : ℕ → ℕ) (registry : List (Bytes × DbEngine l))
        (file rest : Bytes)
        → length file < 2 ^ 32
        → find_engine x l room file registry ≡ some e
        → session x l room opens clock registry (
            socket
              (framed file
                ++ put_command dbname id [] doc
                    (get_command dbname 6 id [] (fin_command dbname rest)))
              [])
          ≡ some (
              ok (
                set_engine x l room file after_put registry,
                socket rest (
                    (htonl 0 ++ framed new_rev.stringed)
                    ++ answered x l room (settled content) new_rev),
              ))
    unfolding close_session htonl
    session-put_get opens clock registry file rest b h =
        session-served x l room opens clock registry file e _ _ _
          (read_str-framed file
            (put_command dbname id [] doc (get_command dbname 6 id [] (fin_command dbname rest))) []
            b)
          h (serve-put_get clock _ 0 rest [])
