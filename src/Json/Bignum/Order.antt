-- ===== src/Json/Bignum/Order.antt =====
-- operator< of bignum_t (libsofadb/native_json.cpp) on decimal texts.
use sofa_db.Prelude.{
  ℕ, zero, suc, ◌+◌, ◌-◌, ◌*◌, ◌/◌, ◌<◌, ◌≤◌, ◌≡◌, refl, sym, inl, inr, ◌≢◌, true, false, [], ◌∷◌,
  ◌++◌, ltb, ◌==◌, arith, Bool-cases, length, if◌then◌else◌, not,
}
use sofa_db.Prelude.Int.{ℤ, pos, negsuc, ltb_ℤ}
use sofa_db.Text.{Bytes, all_digits, decimal, decimal_fuel, decimal_ℤ, digits_value, bytes_lt}
use sofa_db.Text.Decimal.{digits_value-decimal, decimal-digits, decimal-ne-nil}
use sofa_db.Failure.{ok}
use sofa_db.Json.Bignum.{bignum_lt, compare_digits, is_negative}

-- Ten to the length of a text.
abbrev scale : Bytes → ℕ
scale [] = 1
scale (c ∷ s) = 10 * scale s

digits_value_acc :
    (s : Bytes) (acc : ℕ)
    → all_digits s ≡ true
    → digits_value acc s ≡ acc * scale s + digits_value 0 s
unfolding digits_value all_digits
digits_value_acc [] acc h = omega arith
digits_value_acc (c ∷ s) acc h =
    grind (arith, digits_value_acc s (acc * 10 + (c - 48)), digits_value_acc s (c - 48))

-- The first digit of a text weighs as much as the scale of the others.
value_cons :
    (c : ℕ) (s : Bytes)
    → all_digits (c ∷ s) ≡ true
    → (digits_value 0 (c ∷ s) ≡ (c - 48) * scale s + digits_value 0 s)
      × (all_digits s ≡ true)
      × (48 ≤ c)
      × (c ≤ 57)
unfolding digits_value all_digits
value_cons c s h = ground (arith, digits_value_acc s (c - 48))

scale_pos : (s : Bytes) → 0 < scale s
scale_pos [] = omega arith
scale_pos (c ∷ s) = omega (arith, scale_pos s)

value-lt-scale : (s : Bytes) → all_digits s ≡ true → digits_value 0 s < scale s
unfolding digits_value
value-lt-scale [] h = omega arith
value-lt-scale (c ∷ s) h =
    let (e, d, lo, hi) = value_cons c s h in grind (arith, e, lo, hi, value-lt-scale s d)

scale-eq_of_length : (s t : Bytes) → length s ≡ length t → scale s ≡ scale t
scale-eq_of_length [] [] h = refl
scale-eq_of_length [] (d ∷ t) h = absurd (omega arith)
scale-eq_of_length (c ∷ s) [] h = absurd (omega arith)
scale-eq_of_length (c ∷ s) (d ∷ t) h = omega (arith, scale-eq_of_length s t (omega arith))

scale-le_of_length : (s t : Bytes) → length s ≤ length t → scale s ≤ scale t
scale-le_of_length [] t h = scale_pos t
scale-le_of_length (c ∷ s) [] h = absurd (omega arith)
scale-le_of_length (c ∷ s) (d ∷ t) h = omega (arith, scale-le_of_length s t (omega arith))

-- A lower first digit decides, whatever follows.
lower_head :
    (c d : ℕ) (s t : Bytes)
    → all_digits (c ∷ s) ≡ true
    → all_digits (d ∷ t) ≡ true
    → length s ≡ length t
    → c < d
    → digits_value 0 (c ∷ s) < digits_value 0 (d ∷ t)
lower_head c d s t h k l lt =
    let (e, ds, lo, hi) = value_cons c s h in
    let (e', dt, lo', hi') = value_cons d t k in
    let weight : (c - 48 + 1) * scale s ≤ (d - 48) * scale t =
      grind (arith, scale-eq_of_length s t l, lo, lt) in
    grind (arith, e, e', weight, value-lt-scale s ds)

-- Among texts of one length the order of strings is the order of numbers.
bytes_lt-value :
    (s t : Bytes)
    → all_digits s ≡ true
    → all_digits t ≡ true
    → length s ≡ length t
    → bytes_lt s t ≡ ltb (digits_value 0 s) (digits_value 0 t)
unfolding bytes_lt digits_value
bytes_lt-value [] [] h k l = refl
bytes_lt-value [] (d ∷ t) h k l = absurd (omega arith)
bytes_lt-value (c ∷ s) [] h k l = absurd (omega arith)
bytes_lt-value (c ∷ s) (d ∷ t) h k l =
    let (e, ds, lo, hi) = value_cons c s h in
    let (e', dt, lo', hi') = value_cons d t k in
    let len : length s ≡ length t = omega arith in
    let same : c ≡ d → (c - 48) * scale s ≡ (d - 48) * scale t =
      λ p. grind (arith, scale-eq_of_length s t len, p) in
    ground (
      arith,
      bytes_lt-value s t ds dt len,
      lower_head c d s t h k len,
      lower_head d c t s k h (sym len),
      e,
      e',
      same,
    )

-- The first digit is not a zero.
abbrev LeadsPositive : Bytes → Type 0
LeadsPositive [] = ⊥
LeadsPositive (c ∷ s) = 48 < c

LeadsPositive-append : (s t : Bytes) → LeadsPositive s → LeadsPositive (s ++ t)
LeadsPositive-append [] t h = elim h [ ]
LeadsPositive-append (c ∷ s) t h = h

decimal_fuel-LeadsPositive : (f n : ℕ) → 0 < n → n < f → LeadsPositive (decimal_fuel f n)
unfolding decimal_fuel
decimal_fuel-LeadsPositive zero n p h = elim h [ ]
decimal_fuel-LeadsPositive (suc f) n p h = elim (Bool-cases (ltb n 10)) [
  | inl small ↦ rw small (ground arith)
  | inr large ↦ rw large (
      LeadsPositive-append (decimal_fuel f (n / 10)) _
        (decimal_fuel-LeadsPositive f (n / 10) (ground arith) (ground arith)))
]

decimal-LeadsPositive : (n : ℕ) → 0 < n → LeadsPositive (decimal n)
unfolding decimal
decimal-LeadsPositive n p = decimal_fuel-LeadsPositive (suc n) n p (omega arith)

scale-le-value :
    (s : Bytes) → all_digits s ≡ true → LeadsPositive s → scale s ≤ 10 * digits_value 0 s
scale-le-value [] h p = elim p [ ]
scale-le-value (c ∷ s) h p =
    let (e, ds, lo, hi) = value_cons c s h in
    let weight : 1 * scale s ≤ (c - 48) * scale s = grind arith in omega (arith, e, weight)

-- Of two texts that do not begin with a zero the shorter one is the lower number.
shorter-lt :
    (s t : Bytes)
    → all_digits s ≡ true
    → all_digits t ≡ true
    → LeadsPositive t
    → length s < length t
    → digits_value 0 s < digits_value 0 t
shorter-lt s [] h k p l = elim p [ ]
shorter-lt s (d ∷ t) h k p l =
    omega
      (arith, value-lt-scale s h, scale-le_of_length s t (omega arith), scale-le-value (d ∷ t) k p)

length_pos : (s : Bytes) → s ≢ [] → 0 < length s
length_pos [] h = absurd (h refl)
length_pos (c ∷ s) h = omega arith

length-decimal_zero : length (decimal 0) ≡ 1
unfolding decimal
length-decimal_zero = refl

lt_of_length-decimal : (m n : ℕ) → length (decimal m) < length (decimal n) → m < n
lt_of_length-decimal m zero h =
    absurd (omega (arith, length_pos (decimal m) (decimal-ne-nil m), length-decimal_zero))
lt_of_length-decimal m (suc n) h =
    let shorter =
      shorter-lt (decimal m) (decimal (suc n)) (decimal-digits m) (decimal-digits (suc n))
        (decimal-LeadsPositive (suc n) (omega arith)) h in
    omega (arith, digits_value-decimal m, digits_value-decimal (suc n), shorter)

bytes_lt-decimal :
    (m n : ℕ) → length (decimal m) ≡ length (decimal n) → bytes_lt (decimal m) (decimal n) ≡ ltb m n
bytes_lt-decimal m n h = cc (
  bytes_lt-value (decimal m) (decimal n) (decimal-digits m) (decimal-digits n) h,
  digits_value-decimal m,
  digits_value-decimal n,
)

-- The comparison of two non-negative numbers, by their lengths and then by their texts.
compare-decimal :
    (m n : ℕ)
    → (if not (length (decimal m) == length (decimal n))
        then ltb (length (decimal m)) (length (decimal n))
        else bytes_lt (decimal m) (decimal n))
      ≡ ltb m n
compare-decimal m n =
    ground (arith, lt_of_length-decimal m n, lt_of_length-decimal n m, bytes_lt-decimal m n)

head-decimal : (n : ℕ) → (c : ℕ) × (s : Bytes) × (decimal n ≡ c ∷ s) × ((c == b'-') ≡ false)
head-decimal n = go (decimal n) refl
  where
    go :
        (t : Bytes)
        → decimal n ≡ t
        → (c : ℕ) × (s : Bytes) × (decimal n ≡ c ∷ s) × ((c == b'-') ≡ false)
    go [] e = absurd (decimal-ne-nil n e)
    go (c ∷ s) e = (c, s, e, unfold all_digits in ground (arith, decimal-digits n, e))

is_negative-decimal : (n : ℕ) → is_negative (decimal n) ≡ ok false
unfolding is_negative
is_negative-decimal n = let (c, s, e, q) = head-decimal n in rw e (rw q)

-- The order on the decimal texts of integers is the order of the integers.
pub bignum_lt-decimal : (i j : ℤ) → bignum_lt (decimal_ℤ i) (decimal_ℤ j) ≡ ok (ltb_ℤ i j)
unfolding bignum_lt decimal_ℤ compare_digits bytes_lt
bignum_lt-decimal (pos m) (pos n) =
    rw (is_negative-decimal m, is_negative-decimal n) (ground (arith, compare-decimal m n))
bignum_lt-decimal (pos m) (negsuc n) = rw (is_negative-decimal m) (ground arith)
bignum_lt-decimal (negsuc m) (pos n) = rw (is_negative-decimal n) (ground arith)
bignum_lt-decimal (negsuc m) (negsuc n) = ground (arith, compare-decimal (suc n) (suc m))
