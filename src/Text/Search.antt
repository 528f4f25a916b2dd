-- ===== src/Text/Search.antt =====
-- Searching a byte string for a separator.
use sofa_db.Prelude.{ℕ, ◌≡◌, refl, true, false, [], ◌∷◌, ◌++◌, some, arith, length}
use sofa_db.Text.{Bytes, find, contains, all_digits, is_digit}

-- The first occurrence of a byte is where the text before it ends, if that has none.
pub find-append :
    (c : ℕ) (s t : Bytes) → contains s c ≡ false → find c (s ++ (c ∷ t)) ≡ some (length s)
unfolding find contains
find-append c [] t h = ground arith
find-append c (b ∷ s) t h = ground (arith, find-append c s t)

pub contains-digits :
    (s : Bytes) (c : ℕ) → all_digits s ≡ true → is_digit c ≡ false → contains s c ≡ false
unfolding contains all_digits
contains-digits [] c h k = refl
contains-digits (b ∷ s) c h k = ground (arith, contains-digits s c)
