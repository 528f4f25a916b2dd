-- ===== src/Server/Session/Taken.antt =====
-- How many bytes each command of a session (server/server_main.cpp) takes from the socket.
use sofa_db.Prelude.{
  ℕ, ◌+◌, ◌≤◌, ◌<◌, ◌≡◌, sym, ap, ◌∙◌, Bool, true, false, [], none, some, length, if◌then◌else◌,
  arith, Bool-cases, inl, inr,
}
use sofa_db.Text.{Bytes, bytes_eq}
use sofa_db.Failure.{ok, fail, undefined, err, s_error, ◌>>=◌}
use sofa_db.Failure.Laws.{>>=-ok, ok-injective}
use sofa_db.Json.Text.{string_to_json, json_to_string}
use sofa_db.Revision.{is_empty, parse_revision}
use sofa_db.Database.{Database}
use sofa_db.Database.Put.{put}
use sofa_db.Database.Get.{GetResult, Wanted, get}
use sofa_db.Engine.{LevelDb, DbEngine, create_storage, create_a_database}
use sofa_db.Externals.{Externals}
use sofa_db.Streams.Laws.{length-drop}
use sofa_db.Server.{Socket, read_bytes, read_uint32, write_uint32, read_str, write_str}
use sofa_db.Server.Commands.{
  wanted_of, read_id, write_if, value_of, text_of, answer_get, do_document_get, answer_put,
  do_command_put, empty_document_id,
}
use sofa_db.Server.Session.{dispatch, round, get_text, put_text, fin_text, empty_database}

-- The number of bytes that will come.
abbrev pub left : Socket → ℕ
left sock = length sock.incoming

read_bytes-left :
    (n : ℕ) (sock : Socket) (done : Bytes × Socket)
    → read_bytes n sock ≡ ok done
    → left done.1 + n ≡ left sock
unfolding read_bytes
read_bytes-left n sock done h = ground (arith, length-drop sock.incoming n)

read_uint32-left :
    (sock : Socket) (done : ℕ × Socket) → read_uint32 sock ≡ ok done → left done.1 + 4 ≡ left sock
unfolding read_uint32
read_uint32-left sock done h =
    let (s, h1, e) = >>=-ok _ (read_bytes 4 sock) h in
    ap (λ (t : ℕ × Socket). left t.1 + 4) (sym (ok-injective h1)) ∙ read_bytes-left 4 sock s e

read_str-left :
    (sock : Socket) (done : Bytes × Socket) → read_str sock ≡ ok done → left done.1 + 4 ≤ left sock
unfolding read_str
read_str-left sock done h =
    let (n, h1, e) = >>=-ok _ (read_uint32 sock) h in
    omega (arith, read_uint32-left sock n e, read_bytes-left n.0 n.1 done h1)

read_id-left :
    (sock : Socket) (done : Bytes × Socket) → read_id sock ≡ ok done → left done.1 + 4 ≤ left sock
unfolding read_id
read_id-left sock done h =
    let (id, h1, e) = >>=-ok _ (read_str sock) h in
    let (u, h2, _) =
      >>=-ok _ (if bytes_eq id.0 [] then err s_error empty_document_id else ok tt) h1 in
    let same = ap (λ (t : Bytes × Socket). left t.1) (ok-injective h2) in
    omega (arith, read_str-left sock id e, same)

write_str-left :
    (s : Bytes) (sock done : Socket) → write_str s sock ≡ ok done → left done ≡ left sock
unfolding write_str write_uint32
write_str-left s sock done h = ground arith

write_if-left :
    (b : Bool) (s : Bytes) (sock done : Socket)
    → write_if b s sock ≡ ok done
    → left done ≡ left sock
unfolding write_if
write_if-left true s sock done h = write_str-left s sock done h
write_if-left false s sock done h = ap left (sym (ok-injective h))

module _ (x : Externals) (l : LevelDb) where
  answer_get-left :
      (want : Wanted) (res : GetResult) (sock done : Socket)
      → answer_get x l want res sock ≡ ok done
      → left done ≡ left sock
  unfolding answer_get write_uint32
  answer_get-left want res sock done h = elim (Bool-cases res.found) [
    | inl found ↦
        let h0 = rw found at h in
        let (s2, h3, h2) =
          >>=-ok _
            (write_if want.content (json_to_string x (value_of res.content) false)
                (write_uint32 1 sock)
              >>= write_if want.rev (text_of res.rev))
            h0 in
        let (s1, h4, h1) =
          >>=-ok _
            (write_if want.content (json_to_string x (value_of res.content) false)
              (write_uint32 1 sock))
            h2 in
        write_if-left want.rev_log _ s2 done h3
        ∙ write_if-left want.rev _ s1 s2 h4
        ∙ write_if-left want.content _ (write_uint32 1 sock) s1 h1
    | inr missing ↦ ap left (sym (ok-injective (rw missing at h)))
  ]

  do_document_get-left :
      (db : Database) (st : l.State) (sock done : Socket)
      → do_document_get x l db st sock ≡ ok done
      → left done + 4 ≤ left sock
  unfolding do_document_get
  do_document_get-left db st sock done h =
      let (params, h1, e1) = >>=-ok _ (read_uint32 sock) h in
      let (id, h2, e2) = >>=-ok _ (read_id params.1) h1 in
      let (rev, h3, e3) = >>=-ok _ (read_str id.1) h2 in
      let (rnum, h4, _) = >>=-ok _ (parse_revision rev.0) h3 in
      let (res, h5, _) =
        >>=-ok _
          (get x (create_storage l false) db id.0 (if is_empty rnum then none else some rnum)
            (wanted_of params.0) st)
          h4 in
      omega (
        arith,
        read_uint32-left sock params e1,
        read_id-left params.1 id e2,
        read_str-left id.1 rev e3,
        answer_get-left (wanted_of params.0) res rev.1 done h5,
      )

  do_command_put-left :
      (db : Database) (room : ℕ) (st : l.State) (sock : Socket) (done : l.State × Socket)
      → do_command_put x l db room st sock ≡ ok done
      → left done.1 + 4 ≤ left sock
  unfolding do_command_put answer_put write_uint32
  do_command_put-left db room st sock done h =
      let (id, h1, e1) = >>=-ok _ (read_id sock) h in
      let (rev, h2, e2) = >>=-ok _ (read_str id.1) h1 in
      let (doc, h3, e3) = >>=-ok _ (read_str rev.1) h2 in
      let (old, h4, _) = >>=-ok _ (parse_revision rev.0) h3 in
      let (content, h5, _) = >>=-ok _ (string_to_json x doc.0) h4 in
      let (res, h6, _) =
        >>=-ok _ (put x (create_storage l false) db room id.0 old content false st) h5 in
      let (s4, h7, e7) = >>=-ok _ (answer_put x l res.0 doc.1) h6 in
      let same = ap (λ (t : l.State × Socket). left t.1) (ok-injective h7) in
      omega (
        arith,
        read_id-left sock id e1,
        read_str-left id.1 rev e2,
        read_str-left rev.1 doc e3,
        write_str-left _ _ s4 e7,
        same,
      )

  module _ (room : ℕ) where
    dispatch-left :
        (command : Bytes) (db : Database) (e : DbEngine l) (sock : Socket)
        (done : Bool × (DbEngine l × Socket))
        → dispatch x l room command db e sock ≡ ok done
        → done.0 ≡ true
        → left done.1.1 ≤ left sock
    unfolding dispatch
    dispatch-left command db e sock done h g = elim (Bool-cases (bytes_eq command get_text)) [
      | inl a ↦
          let (sock', h1, e1) = >>=-ok _ (do_document_get x l db e.keystore sock) (rw a at h) in
          let same = ap (λ (t : Bool × (DbEngine l × Socket)). left t.1.1) (ok-injective h1) in
          omega (arith, do_document_get-left db e.keystore sock sock' e1, same)
      | inr a ↦ elim (Bool-cases (bytes_eq command put_text)) [
        | inl b ↦
            let (put_done, h1, e1) =
              >>=-ok _ (do_command_put x l db room e.keystore sock) (rw (a, b) at h) in
            let same = ap (λ (t : Bool × (DbEngine l × Socket)). left t.1.1) (ok-injective h1) in
            omega (arith, do_command_put-left db room e.keystore sock put_done e1, same)
        | inr b ↦ elim (Bool-cases (bytes_eq command fin_text)) [
          | inl c ↦
              let same =
                ap (λ (t : Bool × (DbEngine l × Socket)). left t.1.1)
                  (ok-injective (rw (a, b, c) at h)) in
              omega (arith, same)
          | inr c ↦ absurd (unfold err in cc (rw (a, b, c) at h))
        ]
      ]
    ]

    -- A round that goes on has taken bytes.
    pub round-left :
        (now : ℕ) (e : DbEngine l) (sock : Socket) (done : Bool × (DbEngine l × Socket))
        → round x l room now e sock ≡ ok done
        → done.0 ≡ true
        → left done.1.1 < left sock
    unfolding round
    round-left now e sock done h g =
        let (command, h1, e1) = >>=-ok _ (read_str sock) h in
        let (dbname, h2, e2) = >>=-ok _ (read_str command.1) h1 in
        let (u, h3, _) =
          >>=-ok _ (if bytes_eq dbname.0 [] then err s_error empty_database else ok tt) h2 in
        let (db, h4, _) =
          >>=-ok _
            (if bytes_eq dbname.0 [] then fail undefined else create_a_database x l now dbname.0 e)
            h3 in
        omega (
          arith,
          read_str-left sock command e1,
          read_str-left command.1 dbname e2,
          dispatch-left command.0 db.0 db.1 dbname.1 done h4 g,
        )
