-- ===== src/Database/Put/Keys.antt =====
-- The storage after a put, key by key.
use sofa_db.Prelude.{
  ℕ, zero, suc, ◌+◌, ◌-◌, ◌/◌, ◌%◌, ◌^◌, ◌≡◌, ◌<◌, ◌≢◌, refl, ap, ◌∙◌, ◌⊎◌, inl, inr, true, false,
  ◌||◌, [], ◌∷◌, ◌++◌, some, arith, append-nil, length, length-append, take, get_elem?,
  Option-cases,
}
use sofa_db.Prelude.Int.{pos}
use sofa_db.Text.{Bytes, bytes_eq, contains, decimal}
use sofa_db.Text.Order.{bytes_eq_iff, bytes_eq_refl}
use sofa_db.Text.Decimal.{decimal-digits}
use sofa_db.Text.Search.{contains-digits}
use sofa_db.Json.Value.{JsonValue}
use sofa_db.Json.Text.{json_to_string}
use sofa_db.Revision.{Revision}
use sofa_db.Revlog.View.{LogView, represent}
use sofa_db.Storage.{Storage, IsMap}
use sofa_db.Database.{Database, make_path, hex_digit, hex_text, alphabet}
use sofa_db.Database.Paths.{make_path-injective}
use sofa_db.Database.Put.{compute_revision, body_of}
use sofa_db.Database.Put.Effects.{assigned, stored}
use sofa_db.Externals.{Externals}
use sofa_db.Externals.Laws.{IsDocumented}

contains-append : (s t : Bytes) (c : ℕ) → contains (s ++ t) c ≡ (contains s c || contains t c)
unfolding contains
contains-append [] t c = refl
contains-append (b ∷ s) t c = ground (arith, contains-append s t c)

contains-get_elem? : (s : Bytes) (n c : ℕ) → get_elem? s n ≡ some c → contains s c ≡ true
unfolding contains
contains-get_elem? [] n c h = cc
contains-get_elem? (b ∷ s) zero c h = ground arith
contains-get_elem? (b ∷ s) (suc n) c h = ground (arith, contains-get_elem? s n c h)

no_at : contains alphabet b'@' ≡ false
unfolding contains
no_at = refl

hex_digit-ne_at : (n : ℕ) → hex_digit n ≢ b'@'
unfolding hex_digit
hex_digit-ne_at n = elim (Option-cases (get_elem? alphabet n)) [
  | inl e ↦ rw e (ground arith)
  | inr (c, e) ↦ rw e (λ p. cc (no_at, contains-get_elem? alphabet n c e, p))
]

hex_text-no_at : (s : Bytes) → contains (hex_text s) b'@' ≡ false
unfolding hex_text contains
hex_text-no_at [] = refl
hex_text-no_at (b ∷ s) =
    ground (arith, hex_text-no_at s, hex_digit-ne_at (b / 16), hex_digit-ne_at (b % 16))

-- The text of a revision that the database assigns has no '@'.
pub compute_revision-no_at :
    (x : Externals)
    → IsDocumented x
    → (prev : Revision) (body : Bytes) → prev.num < 2 ^ 31 - 1
    → contains (compute_revision x prev body).stringed b'@' ≡ false
unfolding compute_revision
compute_revision-no_at x d prev body h =
    let small : (prev.num + 1) % 2 ^ 32 < 2 ^ 31 = omega arith in
    rw (d.generates_decimal ((prev.num + 1) % 2 ^ 32) small) (
      contains-append (decimal ((prev.num + 1) % 2 ^ 32)) _ b'@'
      ∙ unfold contains in
        ground (
          arith,
          contains-digits (decimal ((prev.num + 1) % 2 ^ 32)) b'@'
              (decimal-digits ((prev.num + 1) % 2 ^ 32)),
          hex_text-no_at (take 16 (x.md5 body)),
        ))

append-ne_self : (s r : Bytes) → r ≢ [] → s ≢ s ++ r
append-ne_self s [] n e = n refl
append-ne_self s (c ∷ r) n e = absurd (omega (arith, ap length e, length-append {0} s (c ∷ r)))

pub compute_revision-ne_nil :
    (x : Externals) (prev : Revision) (body : Bytes) → (compute_revision x prev body).stringed ≢ []
unfolding compute_revision
compute_revision-ne_nil x prev body e = go (x.generate_int (pos ((prev.num + 1) % 2 ^ 32))) e
  where
    go : (s : Bytes) → s ++ (b'-' ∷ hex_text (take 16 (x.md5 body))) ≡ [] → ⊥
    go [] e = cc
    go (c ∷ s) e = cc

module _ (x : Externals) (s : Storage) (m : IsMap s) (old : Revision) (content : JsonValue)
    (v : LogView) (st : s.State) where
  abbrev new_text : Bytes
  new_text = (assigned x s m old content).stringed

  -- The key of the log holds the log.
  pub lookup-stored_log :
      (path : Bytes)
      → m.lookup path (stored x s m path old content v st)
        ≡ some (json_to_string x (represent v) false)
  lookup-stored_log path = m.lookup-store path path _ _ ∙ rw (bytes_eq_refl path)

  -- The key of the assigned revision holds its body.
  pub lookup-stored_body :
      (path : Bytes)
      → m.lookup (path ++ new_text) (stored x s m path old content v st)
        ≡ some (body_of x old false content)
  lookup-stored_body path =
      m.lookup-store path (path ++ new_text) _ _
      ∙ rw (differ path) (
          m.lookup-store (path ++ new_text) (path ++ new_text) _ st
          ∙ rw (bytes_eq_refl (path ++ new_text)))
    where
      differ : (path : Bytes) → bytes_eq path (path ++ new_text) ≡ false
      differ path = ground (
        arith,
        bytes_eq_iff path (path ++ new_text),
        append-ne_self path new_text (compute_revision-ne_nil x old (body_of x old false content)),
      )

  -- Every other key holds what it held.
  pub lookup-stored_ne :
      (path key : Bytes)
      → path ≢ key
      → path ++ new_text ≢ key
      → m.lookup key (stored x s m path old content v st) ≡ m.lookup key st
  lookup-stored_ne path key p q =
      m.lookup-store path key _ _
      ∙ rw (ne_false path key p)
          (m.lookup-store (path ++ new_text) key _ st ∙ rw (ne_false (path ++ new_text) key q))
    where
      ne_false : (a b : Bytes) → a ≢ b → bytes_eq a b ≡ false
      ne_false a b n = ground (arith, bytes_eq_iff a b)

  -- A put changes no key of another document, and no key of another revision: as long as no name
  -- holds a NUL, and no revision an '@'.
  pub lookup-stored_other :
      (db db' : Database) (id id' r : Bytes)
      → contains db.name 0 ≡ false
      → contains db'.name 0 ≡ false
      → contains new_text b'@' ≡ false
      → contains r b'@' ≡ false
      → ((db.name ≢ db'.name) ⊎ (id ≢ id')) ⊎ ((r ≢ []) × (new_text ≢ r))
      → m.lookup (make_path db' id' ++ r) (stored x s m (make_path db id) old content v st)
        ≡ m.lookup (make_path db' id' ++ r) st
  lookup-stored_other db db' id id' r n n' h k other =
      lookup-stored_ne (make_path db id) (make_path db' id' ++ r)
        (λ e.
          let (a, b, c) =
            make_path-injective db db' id id' [] r n n' (unfold contains in refl) k
              (append-nil (make_path db id) ∙ e) in
          ground (arith, a, b, c))
        (λ e.
          let (a, b, c) = make_path-injective db db' id id' new_text r n n' h k e in
          ground (arith, a, b, c))
