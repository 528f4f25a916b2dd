-- ===== src/Conflict/Spec.antt =====
-- What a merge makes of a log's conflicts and entries.
use sofa_db.Prelude.{
  ◌≡◌, refl, ap, true, false, ◌||◌, List, [], ◌∷◌, ◌++◌, if◌then◌else◌, arith, some,
}
use sofa_db.Text.{Bytes, bytes_eq}
use sofa_db.Text.Order.{bytes_eq_iff}
use sofa_db.Revision.{Revision}
use sofa_db.Revlog.View.{Entry, LogView, last_entry}
use sofa_db.Conflict.{member, wins}

-- A set as a list: a text that is there is not added again.
unfoldable pub adjoin : Bytes → List Bytes → List Bytes
unfolding member
adjoin s l = if member s l then l else l ++ (s ∷ [])

unfoldable pub adjoin_all : List Bytes → List Bytes → List Bytes
unfolding adjoin
adjoin_all [] l = l
adjoin_all (s ∷ news) l = adjoin_all news (adjoin s l)

abbrev pub entry_of : Revision → Entry
entry_of r = record { rev = r; available = true; is_deleted = false }

unfoldable pub merge_view : Revision → Revision → List Bytes → LogView → LogView
unfolding adjoin_all wins
merge_view cur new news v =
    if wins cur new
    then record v { conflicts = adjoin new.stringed (adjoin_all news v.conflicts) }
    else record {
      conflicts = adjoin cur.stringed (adjoin_all news v.conflicts);
      entries = v.entries ++ (entry_of new ∷ []);
    }

-- The revisions of a merge by the outcome.
unfoldable pub winner : Revision → Revision → Revision
unfolding wins
winner cur new = if wins cur new then cur else new

unfoldable pub loser : Revision → Revision → Revision
unfolding wins
loser cur new = if wins cur new then new else cur

pub member-append :
    (t s : Bytes) (l : List Bytes) → member t (l ++ (s ∷ [])) ≡ (member t l || bytes_eq s t)
unfolding member
member-append t s [] = ground arith
member-append t s (u ∷ l) = ground (arith, member-append t s l)

pub member-adjoin :
    (t s : Bytes) (l : List Bytes) → member t (adjoin s l) ≡ (member t l || bytes_eq s t)
unfolding adjoin
member-adjoin t s l =
    ground (arith, member-append t s l, bytes_eq_iff s t, ap (λ u. member u l) {x = s} {y = t})

pub member-adjoin_all :
    (t : Bytes) (news l : List Bytes) → member t (adjoin_all news l) ≡ (member t l || member t news)
unfolding adjoin_all member
member-adjoin_all t [] l = ground arith
member-adjoin_all t (s ∷ news) l =
    ground (arith, member-adjoin_all t news (adjoin s l), member-adjoin t s l)

-- No text stands twice.
abbrev pub Distinct : List Bytes → Type 0
Distinct [] = Unit {0}
Distinct (s ∷ l) = (member s l ≡ false) × Distinct l

append-Distinct :
    (s : Bytes) (l : List Bytes) → member s l ≡ false → Distinct l → Distinct (l ++ (s ∷ []))
unfolding member
append-Distinct s [] h d = (refl, tt)
append-Distinct s (t ∷ l) h d =
    ground (arith, append-Distinct s l, member-append t s l, bytes_eq_iff s t, bytes_eq_iff t s)

pub adjoin-Distinct : (s : Bytes) (l : List Bytes) → Distinct l → Distinct (adjoin s l)
unfolding adjoin
adjoin-Distinct s l d = ground (arith, append-Distinct s l)

pub adjoin_all-Distinct : (news l : List Bytes) → Distinct l → Distinct (adjoin_all news l)
unfolding adjoin_all
adjoin_all-Distinct [] l d = d
adjoin_all-Distinct (s ∷ news) l d = adjoin_all-Distinct news (adjoin s l) (adjoin-Distinct s l d)

pub last_entry-append : (l : List Entry) (e : Entry) → last_entry (l ++ (e ∷ [])) ≡ some e
unfolding last_entry
last_entry-append [] e = refl
last_entry-append (f ∷ []) e = refl
last_entry-append (f ∷ (g ∷ l)) e = last_entry-append (g ∷ l) e
