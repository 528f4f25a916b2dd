-- ===== src/Database/Put/Frame.antt =====
-- What a put leaves as it was, whatever it returns.
use sofa_db.Prelude.{
  ℕ, ◌≡◌, ◌≢◌, refl, ap, sym, ◌∙◌, ◌⊎◌, inl, inr, Bool, false, not, ◌&&◌, ◌++◌, arith, Bool-cases,
  if◌then◌else◌,
}
use sofa_db.Text.{Bytes, bytes_eq}
use sofa_db.Text.Order.{bytes_eq_iff}
use sofa_db.Failure.{ok, assert}
use sofa_db.Failure.Laws.{>>=-ok, ok-injective}
use sofa_db.Json.Value.{JsonValue, no_items}
use sofa_db.Json.Text.{json_to_string}
use sofa_db.Revision.{Revision, empty_revision, is_empty}
use sofa_db.Conflict.{merge}
use sofa_db.Storage.{Storage, IsMap}
use sofa_db.Database.{Database, PutResult, update_ok, update_conflict, make_path, check_closed}
use sofa_db.Database.Put.{
  mismatches, extend_log, compute_revision, body_of, get_revlog, store_data, update_document, put,
}
use sofa_db.Externals.{Externals}
use sofa_db.Database.Put.Effects.{assigned}

module _ (x : Externals) (s : Storage) (m : IsMap s) where
  pub lookup-store_ne :
      (k j v : Bytes) (st : s.State) → k ≢ j → m.lookup j (m.store k v st) ≡ m.lookup j st
  lookup-store_ne k j v st n =
      let differ : bytes_eq k j ≡ false = ground (arith, bytes_eq_iff k j) in
      m.lookup-store k j v st ∙ rw differ refl

  two_stores :
      (path r key a b : Bytes) (st : s.State)
      → path ≢ key
      → path ++ r ≢ key
      → m.lookup key (m.store path a (m.store (path ++ r) b st)) ≡ m.lookup key st
  two_stores path r key a b st p q =
      lookup-store_ne path key a _ p ∙ lookup-store_ne (path ++ r) key b st q

  pub store_data-eq :
      (path : Bytes) (old : Revision) (content : JsonValue) (st : s.State)
      → store_data x s path old false content st
        ≡ ok (
          compute_revision x old (body_of x old false content),
          m.store
              (path ++ (compute_revision x old (body_of x old false content)).stringed)
              (body_of x old false content)
              st,
        )
  unfolding store_data
  store_data-eq path old content st = rw (m.puts _ (body_of x old false content) st)

  -- What an update leaves, if it returns.
  update_document-ok :
      (room : ℕ) (path : Bytes) (old : Revision) (content : JsonValue) (has merging : Bool)
      (log : JsonValue) (st : s.State) (done : PutResult × s.State)
      → update_document x s room path old content has merging log st ≡ ok done
      → (log' : JsonValue) × (done ≡ (
        record { code = update_ok; assigned_rev = assigned x s m old content; rev_log = log' },
        m.store path (json_to_string x log' false) (
            m.store
              (path ++ (assigned x s m old content).stringed)
              (body_of x old false content)
              st),
      ))
  unfolding update_document
  update_document-ok room path old content has merging log st done h =
      let h0 = rw (store_data-eq path old content st) at h in
      let (u, h1, _) = >>=-ok _ (assert (not (is_empty (assigned x s m old content)))) h0 in
      let (log', h2, _) =
        >>=-ok _
          (if merging
            then merge x room (assigned x s m old content) no_items log
            else extend_log has old (assigned x s m old content) log)
          h1 in
      let h3 = rw (m.puts path (json_to_string x log' false) _) at h2 in
      (log', ok-injective (sym h3))

  -- What a put that has written leaves.
  abbrev pub written : Bytes → Revision → JsonValue → JsonValue → s.State → PutResult × s.State
  written path old content log st = (
    record { code = update_ok; assigned_rev = assigned x s m old content; rev_log = log },
    m.store path (json_to_string x log false)
        (m.store (path ++ (assigned x s m old content).stringed) (body_of x old false content) st),
  )

  -- A put that returns has refused, or has written.
  pub put-ok :
      (db : Database) (room : ℕ) (id : Bytes) (old : Revision) (content : JsonValue)
      (merging : Bool) (st : s.State) (done : PutResult × s.State)
      → put x s db room id old content merging st ≡ ok done
      → ((log : JsonValue) × (done ≡ (
        record { code = update_conflict; assigned_rev = empty_revision; rev_log = log },
        st,
      )))
        ⊎ ((log : JsonValue) × (done ≡ written (make_path db id) old content log st))
  unfolding put
  put-ok db room id old content merging st done h =
      let (u, h1, _) = >>=-ok _ (check_closed db) h in
      let (found, h2, _) = >>=-ok _ (get_revlog x s (make_path db id) st) h1 in
      let (conflict, h3, _) = >>=-ok _ (if found.0 then mismatches old found.1 else ok false) h2 in
      elim (Bool-cases (conflict && not merging)) [
        | inl refused ↦ inl (found.1, ok-injective (sym (rw refused at h3)))
        | inr taken ↦ inr (
            update_document-ok room (make_path db id) old content found.0 conflict found.1 st done
              (rw taken at h3))
      ]

  -- A put that returns, whatever the log says and whichever branch it takes, changes no key but
  -- that of the document's log and that of the revision it returns. The storage does not fail.
  pub put-frame :
      (db : Database) (room : ℕ) (id : Bytes) (old : Revision) (content : JsonValue)
      (merging : Bool) (st : s.State) (done : PutResult × s.State) (key : Bytes)
      → put x s db room id old content merging st ≡ ok done
      → make_path db id ≢ key
      → make_path db id ++ done.0.assigned_rev.stringed ≢ key
      → m.lookup key done.1 ≡ m.lookup key st
  put-frame db room id old content merging st done key h p q =
      elim (put-ok db room id old content merging st done h) [
        | inl (log, e) ↦ ap (λ (d : PutResult × s.State). m.lookup key d.1) e
        | inr (log, e) ↦
            ap (λ (d : PutResult × s.State). m.lookup key d.1) e
            ∙ two_stores (make_path db id) (assigned x s m old content).stringed key
                (json_to_string x log false) (body_of x old false content) st p
                (λ c. q (
                  ap (λ (d : PutResult × s.State). make_path db id ++ d.0.assigned_rev.stringed) e
                  ∙ c))
      ]
