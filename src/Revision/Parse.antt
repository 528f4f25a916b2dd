-- ===== src/Revision/Parse.antt =====
-- Reading a revision: which texts are accepted, and what they stand for.
use sofa_db.Prelude.{
  ℕ, zero, suc, ◌+◌, ◌-◌, ◌^◌, ◌<◌, ◌≡◌, ◌≢◌, refl, ap, true, [], ◌∷◌, ◌++◌, some, length, take,
  drop, arith, Option-cases, inl, inr, take-length_append, length-append, if◌then◌else◌,
}
use sofa_db.Prelude.Int.{pos}
use sofa_db.Text.{Bytes, find, all_digits, digits_value, decimal}
use sofa_db.Text.Decimal.{digits_value-decimal, decimal-digits, decimal-ne-nil}
use sofa_db.Text.Search.{find-append, contains-digits}
use sofa_db.Json.Bignum.Normal.{strtol-digits}
use sofa_db.Failure.{ok, err, s_wrong_revision, ◌>>=◌}
use sofa_db.Externals.{Externals}
use sofa_db.Externals.Laws.{IsDocumented}
use sofa_db.Revision.{
  Revision, make_revision, parse_revision, from_parts, atoi, to_u32, misplaced, invalid_revision,
}

atoi-digits :
    (s : Bytes)
    → all_digits s ≡ true
    → s ≢ []
    → digits_value 0 s < 2 ^ 31
    → atoi s ≡ ok (pos (digits_value 0 s))
unfolding atoi
atoi-digits s d n b = rw (strtol-digits s d n, atoi) (ground arith)

from_parts-digits :
    (rev digits uniq : Bytes)
    → all_digits digits ≡ true
    → digits ≢ []
    → digits_value 0 digits < 2 ^ 31
    → from_parts rev digits uniq
      ≡ ok (record { stringed = rev; num = digits_value 0 digits; uniq = uniq })
unfolding from_parts to_u32
from_parts-digits rev digits uniq d n b = rw (d, atoi-digits digits d n b) (ground arith)

drop-suc-length_append : (s t : Bytes) (c : ℕ) → drop (suc (length s)) (s ++ (c ∷ t)) ≡ t
drop-suc-length_append [] t c = refl
drop-suc-length_append (b ∷ s) t c = drop-suc-length_append s t c

-- Digits, a dash and a text that is not empty make a revision.
pub parse_revision-append :
    (digits uniq : Bytes)
    → all_digits digits ≡ true
    → digits ≢ []
    → uniq ≢ []
    → digits_value 0 digits < 2 ^ 31
    → parse_revision (digits ++ (b'-' ∷ uniq))
      ≡ ok (record { stringed = digits ++ (b'-' ∷ uniq); num = digits_value 0 digits; uniq = uniq })
unfolding parse_revision
parse_revision-append [] uniq d n u b = absurd (n refl)
parse_revision-append (c ∷ s) [] d n u b = absurd (u refl)
parse_revision-append (c ∷ s) (e ∷ t) d n u b =
    rw
      (
        find-append b'-' (c ∷ s) (e ∷ t) (contains-digits (c ∷ s) b'-' d refl),
        length-append s (b'-' ∷ (e ∷ t)),
        take-length_append s (b'-' ∷ (e ∷ t)),
        drop-suc-length_append s (e ∷ t) b'-',
      )
      (ground (arith, from_parts-digits (c ∷ (s ++ (b'-' ∷ (e ∷ t)))) (c ∷ s) (e ∷ t) d n b))

-- A revision is read back from its text: the number fits an int, and the unique part is not empty.
pub parse_revision-make_revision :
    (x : Externals)
    → IsDocumented x
    → (num : ℕ) (uniq : Bytes) → num < 2 ^ 31
    → uniq ≢ []
    → parse_revision (make_revision x num uniq).stringed ≡ ok (make_revision x num uniq)
unfolding make_revision
parse_revision-make_revision x h num uniq b u = rw (h.generates_decimal num b) (
    ground (
      arith,
      digits_value-decimal num,
      parse_revision-append (decimal num) uniq (decimal-digits num) (decimal-ne-nil num) u,
    ))

-- How a text stands at the place where a byte was found.
find-some :
    (c : ℕ) (s : Bytes) (i : ℕ)
    → find c s ≡ some i
    → (s ≡ take i s ++ (c ∷ drop (suc i) s))
      × (length s ≡ i + 1 + length (drop (suc i) s))
      × (length (take i s) ≡ i)
unfolding find
find-some c [] i h = cc
find-some c (b ∷ s) zero h = ground arith
find-some c (b ∷ s) (suc i) h = ground (arith, find-some c s i)

pub record IsRevisionText (s : Bytes) (r : Revision) : Type 0 where
  pub text : r.stringed ≡ s
  pub digits : Bytes
  pub parts : s ≡ digits ++ (b'-' ∷ r.uniq)
  pub numeric : all_digits digits ≡ true
  pub some_digit : digits ≢ []
  pub some_uniq : r.uniq ≢ []
  pub num : r.num ≡ digits_value 0 digits
  pub bound : r.num < 2 ^ 31

from_parts-ok :
    (rev digits uniq : Bytes) (r : Revision)
    → digits ≢ []
    → from_parts rev digits uniq ≡ ok r
    → (all_digits digits ≡ true)
      × (digits_value 0 digits < 2 ^ 31)
      × (r ≡ record { stringed = rev; num = digits_value 0 digits; uniq = uniq })
unfolding from_parts atoi to_u32 err
from_parts-ok rev digits uniq r n h = ground (arith, strtol-digits digits)

ne-nil_of_length : (s : Bytes) → 0 < length s → s ≢ []
ne-nil_of_length [] h = elim h [ ]
ne-nil_of_length (c ∷ s) h = cc

split_at :
    (rev : Bytes) (at : ℕ) (r : Revision)
    → ((if misplaced (some at) (length rev)
          then err s_wrong_revision (invalid_revision ++ rev)
          else ok tt)
        >>= λ _. from_parts rev (take at rev) (drop (suc at) rev))
      ≡ ok r
    → (at ≢ 0) × (at ≢ length rev - 1) × (from_parts rev (take at rev) (drop (suc at) rev) ≡ ok r)
unfolding misplaced err
split_at rev at r h = ground arith

-- Only the texts of digits, a dash and a part that is not empty are accepted, where the digits
-- stand for a number that fits an int; the revision has that number, that part, and the text as
-- it was.
pub parse_revision-ok :
    (c : ℕ) (s : Bytes) (r : Revision) → parse_revision (c ∷ s) ≡ ok r → IsRevisionText (c ∷ s) r
unfolding parse_revision err
parse_revision-ok c s r h = elim (Option-cases (find b'-' (c ∷ s))) [
  | inl absent ↦ absurd (cc (rw absent at h))
  | inr (at, found) ↦
      let (whole, len, left) = find-some b'-' (c ∷ s) at found in
      let (p, q, parts) = split_at (c ∷ s) at r (rw found at h) in
      let (d, b, e) =
        from_parts-ok (c ∷ s) (take at (c ∷ s)) (drop (suc at) (c ∷ s)) r
          (ne-nil_of_length _ (omega arith)) parts in
      record {
        text = ap (λ (t : Revision). t.stringed) e;
        digits = take at (c ∷ s);
        parts = rw (ap (λ (t : Revision). t.uniq) e) whole;
        numeric = d;
        some_digit = ne-nil_of_length _ (omega arith);
        some_uniq = rw (ap (λ (t : Revision). t.uniq) e) (ne-nil_of_length _ (omega arith));
        num = ap (λ (t : Revision). t.num) e;
        bound = rw (ap (λ (t : Revision). t.num) e) b;
      }
]
