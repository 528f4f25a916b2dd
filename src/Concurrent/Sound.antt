-- ===== src/Concurrent/Sound.antt =====
-- What holds of the storage and of the threads while several puts are under way.
use sofa_db.Prelude.{
  ℕ, ◌-◌, ◌^◌, ◌<◌, ◌≡◌, ◌≢◌, refl, sym, ◌∙◌, ◌⊎◌, inl, inr, Bool, false, [], ◌∷◌, ◌++◌, some, none,
  All, arith, append-nil, Bool-cases,
}
use sofa_db.Text.{Bytes, bytes_eq, contains}
use sofa_db.Text.Order.{bytes_eq_iff, bytes_eq_refl}
use mathlib.Core.Path.{subst}
use sofa_db.Prelude.Int.{pos}
use sofa_db.Failure.{ok}
use sofa_db.Json.Value.{JsonValue}
use sofa_db.Json.Plain.{IsPlain}
use sofa_db.Json.Text.{json_to_string}
use sofa_db.Revision.{Revision, make_revision, parse_revision, append_int_to_string}
use sofa_db.Revlog.View.{Entry, LogView, last_entry, represent, empty_log}
use sofa_db.Revlog.Plain.{Fits}
use sofa_db.Conflict.Spec.{entry_of}
use sofa_db.Storage.{Storage, IsMap}
use sofa_db.Database.{Database, make_path}
use sofa_db.Database.Paths.{make_path-injective}
use sofa_db.Database.Put.{body_of, compute_revision}
use sofa_db.Database.Put.Effects.{HoldsLog, assigned}
use sofa_db.Database.Put.Frame.{lookup-store_ne}
use sofa_db.Database.Put.Keys.{compute_revision-no_at, compute_revision-ne_nil}
use sofa_db.Externals.{Externals}
use sofa_db.Externals.Laws.{IsDocumented}
use sofa_db.Concurrent.{Request, Phase, waiting, checked, formatted, returned, thrown, System}

-- A request whose content is read back from its text, and whose old revision is too.
pub record IsFair (r : Request) : Type 0 where
  pub small : r.old.num < 2 ^ 31 - 1
  pub plain : IsPlain r.content
  pub readable : parse_revision r.old.stringed ≡ ok r.old

pub make_revision-ne_nil :
    (x : Externals) (num : ℕ) (uniq : Bytes) → (make_revision x num uniq).stringed ≢ []
unfolding make_revision
make_revision-ne_nil x num uniq e = go (append_int_to_string x (pos num) []) e
  where
    go : (s : Bytes) → s ++ (b'-' ∷ uniq) ≡ [] → ⊥
    go [] e = cc
    go (c ∷ s) e = cc

module _ (x : Externals) (s : Storage) (m : IsMap s) where
  abbrev pub key_of : Bytes → Revision → Bytes
  key_of path rev = path ++ (make_revision x rev.num rev.uniq).stringed

  -- The storage holds the body of a revision.
  pub record HasBody (path : Bytes) (rev : Revision) (st : s.State) : Type 0 where
    pub prev : Revision
    pub deleted : Bool
    pub content : JsonValue
    pub found : m.lookup (key_of path rev) st ≡ some (body_of x prev deleted content)
    pub plain : IsPlain content
    pub readable : parse_revision prev.stringed ≡ ok prev
    pub no_at : contains (make_revision x rev.num rev.uniq).stringed b'@' ≡ false

  -- A document's log, with the body of the revision at its top.
  pub record Published (path : Bytes) (st : s.State) : Type 0 where
    pub view : LogView
    pub last : Entry
    pub holds : HoldsLog x s m path view last st
    pub last_fits : Fits last
    pub body : HasBody path last.rev st

  -- A document that has no log, or one whose top revision can be read.
  abbrev pub IsReadable : Bytes → s.State → Type 0
  IsReadable path st = (m.lookup path st ≡ none) ⊎ Published path st

  -- What a put that is under way has read, and made.
  abbrev pub PhaseSound : Bytes → Phase → s.State → Type 0
  PhaseSound path waiting st = Unit {0}
  PhaseSound path (checked has_prev log) st =
      (v : LogView) × ((log ≡ represent v)
        × (All Fits v.entries × (has_prev ≡ false → v ≡ empty_log)))
  PhaseSound path (formatted rev log) st =
      (v : LogView) × ((log ≡ represent v)
        × (All Fits v.entries
            × ((last_entry v.entries ≡ some (entry_of rev))
                × (Fits (entry_of rev) × HasBody path rev st))))
  PhaseSound path (returned res) st = Unit {0}
  PhaseSound path (thrown failure) st = ⊥

  module _ (db : Database) (requests : ℕ → Request) where
    pub record IsSound (sys : System s) : Type 0 where
      pub documents : (id : Bytes) → IsReadable (make_path db id) sys.state
      pub threads : (i : ℕ) → PhaseSound (make_path db (requests i).id) (sys.phase i) sys.state

  HasBody-lookup :
      (path : Bytes) (rev : Revision) (st st' : s.State)
      → m.lookup (key_of path rev) st' ≡ m.lookup (key_of path rev) st
      → HasBody path rev st
      → HasBody path rev st'
  HasBody-lookup path rev st st' e b = record {
    prev = b.prev;
    deleted = b.deleted;
    content = b.content;
    found = e ∙ b.found;
    plain = b.plain;
    readable = b.readable;
    no_at = b.no_at;
  }

  IsReadable-lookup :
      (path : Bytes) (st st' : s.State)
      → m.lookup path st' ≡ m.lookup path st
      → ((rev : Revision) → HasBody path rev st → HasBody path rev st')
      → IsReadable path st
      → IsReadable path st'
  IsReadable-lookup path st st' e keep (inl absent) = inl (e ∙ absent)
  IsReadable-lookup path st st' e keep (inr p) = inr (record {
    view = p.view;
    last = p.last;
    holds = record { text = e ∙ p.holds.text; fits = p.holds.fits; at_top = p.holds.at_top };
    last_fits = p.last_fits;
    body = keep p.last.rev p.body;
  })

  module _ (db : Database) (unnulled : contains db.name 0 ≡ false) where
    key-ne_path :
        (id id' r : Bytes)
        → contains r b'@' ≡ false
        → r ≢ []
        → make_path db id ≢ make_path db id' ++ r
    key-ne_path id id' r n q e =
        let (_, _, c) =
          make_path-injective db db id id' [] r unnulled unnulled (unfold contains in refl) n
            (append-nil (make_path db id) ∙ e) in
        q (sym c)

    -- The write of a log leaves every body.
    pub HasBody-log :
        (id id' : Bytes) (rev : Revision) (text : Bytes) (st : s.State)
        → HasBody (make_path db id) rev st
        → HasBody (make_path db id) rev (m.store (make_path db id') text st)
    HasBody-log id id' rev text st b =
        HasBody-lookup _ rev st _
          (lookup-store_ne x s m (make_path db id') (key_of (make_path db id) rev) text st
            (key-ne_path id' id _ b.no_at (make_revision-ne_nil x rev.num rev.uniq)))
          b

    module _ (d : IsDocumented x) (r : Request) (fair : IsFair r) (st : s.State) where
      -- The storage after the body of a request is written.
      abbrev pub with_body : s.State
      with_body =
          m.store (make_path db r.id ++ (assigned x s m r.old r.content).stringed)
            (body_of x r.old false r.content) st

      -- The write of a body leaves a body of every revision that had one.
      pub HasBody-body :
          (path : Bytes) (rev : Revision) → HasBody path rev st → HasBody path rev with_body
      HasBody-body path rev b =
          elim (Bool-cases (
            bytes_eq (make_path db r.id ++ (assigned x s m r.old r.content).stringed)
              (key_of path rev))) [
                | inl same ↦ record {
                  prev = r.old;
                  deleted = false;
                  content = r.content;
                  found =
                      m.lookup-store _ (key_of path rev) (body_of x r.old false r.content) st
                      ∙ rw same refl;
                  plain = fair.plain;
                  readable = fair.readable;
                  no_at = b.no_at;
                }
                | inr other ↦
                    HasBody-lookup path rev st with_body
                      (m.lookup-store _ (key_of path rev) (body_of x r.old false r.content) st
                        ∙ rw other refl)
                      b
              ]

      -- The body that was written is there.
      pub HasBody-assigned : HasBody (make_path db r.id) (assigned x s m r.old r.content) with_body
      unfolding compute_revision make_revision
      HasBody-assigned = record {
        prev = r.old;
        deleted = false;
        content = r.content;
        found =
            m.lookup-store _ _ (body_of x r.old false r.content) st
            ∙ rw (bytes_eq_refl (make_path db r.id ++ (assigned x s m r.old r.content).stringed))
                refl;
        plain = fair.plain;
        readable = fair.readable;
        no_at = compute_revision-no_at x d r.old (body_of x r.old false r.content) fair.small;
      }

      -- The write of a body leaves every log.
      pub lookup-with_body :
          (id : Bytes) → m.lookup (make_path db id) with_body ≡ m.lookup (make_path db id) st
      lookup-with_body id =
          lookup-store_ne x s m _ (make_path db id) (body_of x r.old false r.content) st (λ e.
            key-ne_path id r.id _
              (compute_revision-no_at x d r.old (body_of x r.old false r.content) fair.small)
              (compute_revision-ne_nil x r.old (body_of x r.old false r.content)) (sym e))

      pub IsReadable-body :
          (id : Bytes) → IsReadable (make_path db id) st → IsReadable (make_path db id) with_body
      IsReadable-body id =
          IsReadable-lookup (make_path db id) st with_body (lookup-with_body id)
            (HasBody-body (make_path db id))

    IsReadable-other :
        (id id' : Bytes) (text : Bytes) (st : s.State)
        → make_path db id' ≢ make_path db id
        → IsReadable (make_path db id) st
        → IsReadable (make_path db id) (m.store (make_path db id') text st)
    IsReadable-other id id' text st n =
        IsReadable-lookup (make_path db id) st (m.store (make_path db id') text st)
          (lookup-store_ne x s m (make_path db id') (make_path db id) text st n)
          (λ rev. HasBody-log id id' rev text st)

    -- A log that is written over a document's body makes it readable, and leaves the others.
    pub IsReadable-log :
        (id id' : Bytes) (rev : Revision) (v : LogView) (st : s.State)
        → All Fits v.entries
        → last_entry v.entries ≡ some (entry_of rev)
        → Fits (entry_of rev)
        → HasBody (make_path db id') rev st
        → IsReadable (make_path db id) st
        → IsReadable
            (make_path db id)
            (m.store (make_path db id') (json_to_string x (represent v) false) st)
    IsReadable-log id id' rev v st f t g b readable =
        elim (Bool-cases (bytes_eq (make_path db id') (make_path db id))) [
          | inl same ↦ inr (record {
            view = v;
            last = entry_of rev;
            holds = record {
              text =
                  m.lookup-store _ (make_path db id) (json_to_string x (represent v) false) st
                  ∙ rw same refl;
              fits = f;
              at_top = t;
            };
            last_fits = g;
            body = HasBody-log id id' rev (json_to_string x (represent v) false) st (
                subst (λ path. HasBody path rev st)
                  (ground (arith, same, bytes_eq_iff (make_path db id') (make_path db id))) b);
          })
          | inr other ↦
              IsReadable-other id id' (json_to_string x (represent v) false) st
                (ground (arith, other, bytes_eq_iff (make_path db id') (make_path db id))) readable
        ]
