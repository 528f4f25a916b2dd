-- ===== src/Database/Paths.antt =====
-- The keys of a database's documents: which keys can be the same.
use sofa_db.Prelude.{ℕ, ◌≡◌, refl, sym, ◌∙◌, true, false, [], ◌∷◌, ◌++◌, append_assoc, arith}
use mathlib.Core.List.{append_cancel_left, append_cancel_right}
use sofa_db.Text.{Bytes, contains}
use sofa_db.Database.{Database, make_path}

contains-middle : (c : ℕ) (s t : Bytes) → contains (s ++ (c ∷ t)) c ≡ true
unfolding contains
contains-middle c [] t = ground arith
contains-middle c (b ∷ s) t = ground (arith, contains-middle c s t)

-- A byte that no rest holds splits a text in one way.
pub split_last :
    (c : ℕ) (a b r s : Bytes)
    → contains r c ≡ false
    → contains s c ≡ false
    → a ++ (c ∷ r) ≡ b ++ (c ∷ s)
    → (a ≡ b) × (r ≡ s)
split_last c [] [] r s hr hs e = (refl, ground (arith, e))
split_last c [] (d ∷ b) r s hr hs e = absurd (cc (contains-middle c b s, hr, e))
split_last c (d ∷ a) [] r s hr hs e = absurd (cc (contains-middle c a r, hs, e))
split_last c (d ∷ a) (f ∷ b) r s hr hs e =
    let (p, q) = split_last c a b r s hr hs (ground (arith, e)) in (ground (arith, e, p), q)

-- A byte that no beginning holds splits a text in one way.
split_first :
    (c : ℕ) (a b r s : Bytes)
    → contains a c ≡ false
    → contains b c ≡ false
    → a ++ (c ∷ r) ≡ b ++ (c ∷ s)
    → (a ≡ b) × (r ≡ s)
unfolding contains
split_first c [] [] r s ha hb e = (refl, ground (arith, e))
split_first c [] (d ∷ b) r s ha hb e = absurd (ground (arith, e))
split_first c (d ∷ a) [] r s ha hb e = absurd (ground (arith, e))
split_first c (d ∷ a) (f ∷ b) r s ha hb e =
    let (p, q) = split_first c a b r s (ground arith) (ground arith) (ground (arith, e)) in
    (ground (arith, e, p), q)

-- "_data/" with its NUL.
abbrev data_prefix : Bytes
data_prefix = b'_' ∷ b'd' ∷ b'a' ∷ b't' ∷ b'a' ∷ b'/' ∷ 0 ∷ []

make_path-append :
    (db : Database) (id r : Bytes)
    → make_path db id ++ r ≡ data_prefix ++ ((db.name ++ (b'!' ∷ [])) ++ (0 ∷ (id ++ (b'@' ∷ r))))
unfolding make_path
make_path-append db id r = simp append_assoc

contains-append_bang : (s : Bytes) → contains s 0 ≡ false → contains (s ++ (b'!' ∷ [])) 0 ≡ false
unfolding contains
contains-append_bang [] h = ground arith
contains-append_bang (b ∷ s) h = ground (arith, contains-append_bang s)

-- A key is a document's path with the text of a revision behind it, or with nothing, which is the
-- key of the log. Two keys are the same only if the databases have one name, and the documents
-- one ID, and the revisions one text: as long as no name holds a NUL, and no revision an '@'.
pub make_path-injective :
    (db db' : Database) (id id' r r' : Bytes)
    → contains db.name 0 ≡ false
    → contains db'.name 0 ≡ false
    → contains r b'@' ≡ false
    → contains r' b'@' ≡ false
    → make_path db id ++ r ≡ make_path db' id' ++ r'
    → (db.name ≡ db'.name) × (id ≡ id') × (r ≡ r')
make_path-injective db db' id id' r r' n n' h h' e =
    let whole = sym (make_path-append db id r) ∙ e ∙ make_path-append db' id' r' in
    let (names, rests) =
      split_first 0 (db.name ++ (b'!' ∷ [])) (db'.name ++ (b'!' ∷ [])) (id ++ (b'@' ∷ r))
        (id' ++ (b'@' ∷ r')) (contains-append_bang db.name n) (contains-append_bang db'.name n')
        (append_cancel_left data_prefix _ _ whole) in
    let (ids, revs) = split_last b'@' id id' r r' h h' rests in
    (append_cancel_right db.name db'.name (b'!' ∷ []) names, ids, revs)

-- Where a client names a revision with an '@' in it, its key can be one of another document: the
-- document whose ID goes on with that text.
pub make_path_alias :
    (db : Database) (id r s : Bytes)
    → make_path db id ++ (r ++ (b'@' ∷ s)) ≡ make_path db (id ++ (b'@' ∷ r)) ++ s
unfolding make_path
make_path_alias db id r s = simp append_assoc
