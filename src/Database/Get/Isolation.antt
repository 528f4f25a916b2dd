-- ===== src/Database/Get/Isolation.antt =====
-- What a put does not change for the callers of get.
use sofa_db.Prelude.{
  ℕ, ◌^◌, ◌-◌, ◌<◌, ◌≡◌, ◌≢◌, refl, ap, sym, ◌∙◌, ◌⊎◌, inl, inr, Bool, true, false, ◌||◌, [], ◌++◌,
  Option, none, some, arith, append-nil,
}
use sofa_db.Text.{Bytes, contains}
use sofa_db.Failure.{ok}
use sofa_db.Json.Value.{JsonValue}
use sofa_db.Revision.{Revision}
use sofa_db.Storage.{Storage, IsMap}
use sofa_db.Database.{Database, PutResult, make_path}
use sofa_db.Database.Paths.{make_path-injective}
use sofa_db.Database.Put.{put, body_of}
use sofa_db.Database.Put.Keys.{compute_revision-no_at}
use sofa_db.Database.Put.Frame.{put-ok, put-frame}
use sofa_db.Database.Get.{Wanted, get, read_document}
use sofa_db.Database.Get.Reads.{get-named}
use sofa_db.Externals.{Externals}
use sofa_db.Externals.Laws.{IsDocumented}

module _ (x : Externals) (d : IsDocumented x) (s : Storage) (m : IsMap s) where
  read_document-lookup :
      (path id : Bytes) (num : Revision) (want : Wanted) (rev_log : Option JsonValue)
      (st st' : s.State)
      → m.lookup (path ++ num.stringed) st ≡ m.lookup (path ++ num.stringed) st'
      → read_document x s path id num want rev_log st
        ≡ read_document x s path id num want rev_log st'
  unfolding read_document
  read_document-lookup path id num want rev_log st st' e =
      rw (m.gets (path ++ num.stringed) st, m.gets (path ++ num.stringed) st', e)

  assigned-no_at :
      (db : Database) (room : ℕ) (id : Bytes) (old : Revision) (content : JsonValue)
      (merging : Bool) (st : s.State) (done : PutResult × s.State)
      → old.num < 2 ^ 31 - 1
      → put x s db room id old content merging st ≡ ok done
      → contains done.0.assigned_rev.stringed b'@' ≡ false
  assigned-no_at db room id old content merging st done b h =
      elim (put-ok x s m db room id old content merging st done h) [
        | inl (log, e) ↦
            ap (λ (t : PutResult × s.State). contains t.0.assigned_rev.stringed b'@') e
            ∙ (unfold contains in refl)
        | inr (log, e) ↦
            ap (λ (t : PutResult × s.State). contains t.0.assigned_rev.stringed b'@') e
            ∙ compute_revision-no_at x d old (body_of x old false content) b
      ]

  -- After a put that returns, whatever it did, a get that names a revision and does not ask for
  -- the log returns what it did before: for another database, another document, or another
  -- revision of the same document. No name of a database holds a NUL, the named revision holds
  -- no '@' and is not empty where the document is the same, the number of the put's old revision
  -- is below 2 ^ 31 - 1, and the storage does not fail.
  pub get-put_other :
      (db db' : Database) (room : ℕ) (id id' : Bytes) (old r : Revision) (content : JsonValue)
      (merging : Bool) (want : Wanted) (st : s.State) (done : PutResult × s.State)
      → put x s db room id old content merging st ≡ ok done
      → old.num < 2 ^ 31 - 1
      → contains db.name 0 ≡ false
      → contains db'.name 0 ≡ false
      → contains r.stringed b'@' ≡ false
      → ((db.name ≢ db'.name) ⊎ (id ≢ id'))
        ⊎ ((r.stringed ≢ []) × (done.0.assigned_rev.stringed ≢ r.stringed))
      → want.rev_log ≡ false
      → (want.content || want.rev) ≡ true
      → get x s db' id' (some r) want done.1 ≡ get x s db' id' (some r) want st
  get-put_other db db' room id id' old r content merging want st done h b n n' k other l c =
      get-named x d s m db' id' want done.1 r l c
      ∙ read_document-lookup (make_path db' id') id' r want none done.1 st (
          put-frame x s m db room id old content merging st done (make_path db' id' ++ r.stringed) h
            (λ e.
              let (p, q, t) =
                make_path-injective db db' id id' [] r.stringed n n' (unfold contains in refl) k
                  (append-nil (make_path db id) ∙ e) in
              ground (arith, p, q, t))
            (λ e.
              let (p, q, t) =
                make_path-injective db db' id id' done.0.assigned_rev.stringed r.stringed n n'
                  (assigned-no_at db room id old content merging st done b h) k e in
              ground (arith, p, q, t)))
      ∙ sym (get-named x d s m db' id' want st r l c)
