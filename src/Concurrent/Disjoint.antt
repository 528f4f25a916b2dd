-- ===== src/Concurrent/Disjoint.antt =====
-- Puts of different documents.
use mathlib.Core.Path.{subst}
use sofa_db.Prelude.{◌-◌, ◌^◌, ◌<◌, ◌≡◌, ◌≢◌, refl, sym, ◌∙◌, ap, false, [], ◌++◌, append-nil}
use sofa_db.Text.{Bytes, contains}
use sofa_db.Json.Text.{json_to_string}
use sofa_db.Storage.{Storage, IsMap}
use sofa_db.Database.{Database, make_path}
use sofa_db.Database.Paths.{make_path-injective}
use sofa_db.Database.Put.{body_of, get_revlog}
use sofa_db.Database.Put.Frame.{store_data-eq, lookup-store_ne}
use sofa_db.Database.Put.Keys.{compute_revision-no_at}
use sofa_db.Externals.{Externals}
use sofa_db.Externals.Laws.{IsDocumented}
use sofa_db.Concurrent.{
  Request, Phase, waiting, checked, formatted, returned, thrown, after_write, after_store, read_log,
  write_body, write_log, proceed,
}

module _ (x : Externals) (s : Storage) (m : IsMap s) (db : Database) where
  -- Two storages hold the same under the keys of a document.
  abbrev pub Agree : Bytes → s.State → s.State → Type 0
  Agree id st st' =
      (r : Bytes)
      → contains r b'@' ≡ false
      → m.lookup (make_path db id ++ r) st ≡ m.lookup (make_path db id ++ r) st'

  Agree-store :
      (id key text : Bytes) (st st' : s.State)
      → Agree id st st'
      → Agree id (m.store key text st) (m.store key text st')
  Agree-store id key text st st' h r n =
      m.lookup-store key (make_path db id ++ r) text st
      ∙ rw (h r n) refl
      ∙ sym (m.lookup-store key (make_path db id ++ r) text st')

  module _ (r : Request) (st st' : s.State) (h : Agree r.id st st') where
    -- A put reads no key but those of its document.
    get_revlog-Agree :
        get_revlog x s (make_path db r.id) st ≡ get_revlog x s (make_path db r.id) st'
    unfolding get_revlog
    get_revlog-Agree =
        let same : m.lookup (make_path db r.id) st ≡ m.lookup (make_path db r.id) st' =
          ap (λ k. m.lookup k st) (sym (append-nil (make_path db r.id)))
          ∙ h [] (unfold contains in refl)
          ∙ ap (λ k. m.lookup k st') (append-nil (make_path db r.id)) in
        rw (m.gets (make_path db r.id) st, m.gets (make_path db r.id) st', same) refl

    pub proceed-Agree :
        (p : Phase)
        → ((proceed x s db r p st).0 ≡ (proceed x s db r p st').0)
          × Agree r.id (proceed x s db r p st).1 (proceed x s db r p st').1
    unfolding proceed
    proceed-Agree waiting = (unfold read_log in rw get_revlog-Agree refl, h)
    proceed-Agree (checked has_prev log) =
        unfold write_body after_write in
        rw
          (
            store_data-eq x s m (make_path db r.id) r.old r.content st,
            store_data-eq x s m (make_path db r.id) r.old r.content st',
          )
          (refl, Agree-store r.id _ _ st st' h)
    proceed-Agree (formatted rev log) =
        unfold write_log after_store in
        rw
          (
            m.puts (make_path db r.id) (json_to_string x log false) st,
            m.puts (make_path db r.id) (json_to_string x log false) st',
          )
          (refl, Agree-store r.id _ _ st st' h)
    proceed-Agree (returned res) = (refl, h)
    proceed-Agree (thrown failure) = (refl, h)

  module _ (d : IsDocumented x) (unnulled : contains db.name 0 ≡ false) where
    store-Agree :
        (id id' suffix text : Bytes) (st : s.State)
        → id' ≢ id
        → contains suffix b'@' ≡ false
        → Agree id (m.store (make_path db id' ++ suffix) text st) st
    store-Agree id id' suffix text st n k r a =
        lookup-store_ne x s m (make_path db id' ++ suffix) (make_path db id ++ r) text st (λ e.
          let (_, p, _) = make_path-injective db db id' id suffix r unnulled unnulled k a e in n p)

    -- A put writes no key of another document.
    pub proceed-other :
        (id : Bytes) (r : Request) (p : Phase) (st : s.State)
        → r.id ≢ id
        → r.old.num < 2 ^ 31 - 1
        → Agree id (proceed x s db r p st).1 st
    unfolding proceed
    proceed-other id r waiting st n b = λ t a. refl
    proceed-other id r (checked has_prev log) st n b =
        unfold write_body after_write in
        rw (store_data-eq x s m (make_path db r.id) r.old r.content st) (
          store-Agree id r.id _ _ st n
            (compute_revision-no_at x d r.old (body_of x r.old false r.content) b))
    proceed-other id r (formatted rev log) st n b =
        unfold write_log after_store in
        rw (m.puts (make_path db r.id) (json_to_string x log false) st) (
          subst (λ k. Agree id (m.store k (json_to_string x log false) st) st)
            (append-nil (make_path db r.id))
            (store-Agree id r.id [] (json_to_string x log false) st n (unfold contains in refl)))
    proceed-other id r (returned res) st n b = λ t a. refl
    proceed-other id r (thrown failure) st n b = λ t a. refl
