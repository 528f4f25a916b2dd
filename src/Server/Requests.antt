-- ===== src/Server/Requests.antt =====
-- What the server does with a request as a client writes it: the call of the database, and the
-- answer.
use sofa_db.Prelude.{
  ℕ, ◌^◌, ◌<◌, ◌≡◌, ◌≢◌, refl, false, [], ◌++◌, none, some, length, if◌then◌else◌, arith,
}
use sofa_db.Text.{Bytes, bytes_eq}
use sofa_db.Text.Order.{bytes_eq_iff}
use sofa_db.Failure.{Result, ok, fail, sofa_exception, s_error, err, ◌>>=◌}
use sofa_db.Json.Value.{JsonValue}
use sofa_db.Json.Text.{string_to_json}
use sofa_db.Revision.{Revision, is_empty, parse_revision}
use sofa_db.Database.{Database, PutResult}
use sofa_db.Database.Put.{put}
use sofa_db.Database.Get.{GetResult, get}
use sofa_db.Engine.{LevelDb, create_storage}
use sofa_db.Externals.{Externals}
use sofa_db.Server.{write_uint32, htonl}
use sofa_db.Server.Wire.{socket, framed, read_uint32-htonl, read_str-framed, write_str-framed}
use sofa_db.Server.Commands.{
  wanted_of, read_id, answer_get, do_document_get, answer_put, do_command_put, status_value,
  empty_document_id,
}

-- The texts of a request fit the numbers that frame them, and the ID is not empty.
pub record IsRequest (id rev doc : Bytes) : Type 0 where
  pub id_fits : length id < 2 ^ 32
  pub rev_fits : length rev < 2 ^ 32
  pub doc_fits : length doc < 2 ^ 32
  pub filled : id ≢ []

read_id-framed :
    (id rest out : Bytes)
    → length id < 2 ^ 32
    → id ≢ []
    → read_id (socket (framed id ++ rest) out) ≡ ok (id, socket rest out)
unfolding read_id
read_id-framed id rest out h n =
    let filled : bytes_eq id [] ≡ false = ground (arith, bytes_eq_iff id []) in
    rw (read_str-framed id rest out h, filled) refl

-- A request without an ID is refused, whatever follows.
pub read_id-empty :
    (rest out : Bytes)
    → read_id (socket (framed [] ++ rest) out)
      ≡ fail (sofa_exception (record { code = s_error; desc = empty_document_id }))
unfolding read_id err bytes_eq
read_id-empty rest out = rw (read_str-framed [] rest out (omega arith)) refl

module _ (x : Externals) (l : LevelDb) (db : Database) (st : l.State) where
  -- A put request is answered with what put returns: its status and the assigned revision, behind
  -- what was written before, and the storage is the one that put leaves.
  pub do_command_put-request :
      (room : ℕ) (id rev doc rest out : Bytes) (old : Revision) (content : JsonValue)
      (res : PutResult) (st' : l.State)
      → IsRequest id rev doc
      → parse_revision rev ≡ ok old
      → string_to_json x doc ≡ ok content
      → put x (create_storage l false) db room id old content false st ≡ ok (res, st')
      → length res.assigned_rev.stringed < 2 ^ 32
      → do_command_put x l db room st
          (socket (framed id ++ (framed rev ++ (framed doc ++ rest))) out)
        ≡ ok (
          st',
          socket rest ((out ++ htonl (status_value res.code)) ++ framed res.assigned_rev.stringed),
        )
  unfolding do_command_put answer_put write_uint32
  do_command_put-request room id rev doc rest out old content res st' q p c e b =
      rw
        (
          read_id-framed id (framed rev ++ (framed doc ++ rest)) out q.id_fits q.filled,
          read_str-framed rev (framed doc ++ rest) out q.rev_fits,
          read_str-framed doc rest out q.doc_fits,
          p,
          c,
          e,
          write_str-framed res.assigned_rev.stringed rest (out ++ htonl (status_value res.code)) b,
        )
        refl

  -- A get request is answered by what get returns for the parameters of the request.
  pub do_document_get-request :
      (params : ℕ) (id rev rest out : Bytes) (r : Revision) (res : Result GetResult)
      → params < 2 ^ 32
      → IsRequest id rev []
      → parse_revision rev ≡ ok r
      → get x
          (create_storage l false)
          db
          id
          (if is_empty r then none else some r)
          (wanted_of params)
          st
        ≡ res
      → do_document_get x l db st (socket (htonl params ++ (framed id ++ (framed rev ++ rest))) out)
        ≡ (res >>= λ done. answer_get x l (wanted_of params) done (socket rest out))
  unfolding do_document_get
  do_document_get-request params id rev rest out r res b q p e =
      rw
        (
          read_uint32-htonl params (framed id ++ (framed rev ++ rest)) out b,
          read_id-framed id (framed rev ++ rest) out q.id_fits q.filled,
          read_str-framed rev rest out q.rev_fits,
          p,
          e,
        )
        refl
