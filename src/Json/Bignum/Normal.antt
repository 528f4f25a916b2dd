-- ===== src/Json/Bignum/Normal.antt =====
-- normalize_int (libsofadb/native_json.cpp) on decimal texts.
use sofa_db.Prelude.{
  suc, ◌-◌, ◌^◌, ◌≡◌, refl, ◌∙◌, ap, ◌≢◌, ◌↔◌, true, [], ◌∷◌, arith, if◌then◌else◌,
}
use sofa_db.Prelude.Int.{ℤ, pos, negsuc, ltb_ℤ}
use sofa_db.Text.{Bytes, all_digits, decimal, decimal_ℤ, digits_value, bytes_eq, strtol}
use sofa_db.Text.Order.{bytes_eq_iff}
use sofa_db.Text.Decimal.{digits_value-decimal, decimal-digits, decimal-ne-nil}
use sofa_db.Failure.{ok}
use sofa_db.Json.Value.{int, big_int}
use sofa_db.Json.Bignum.{
  bignum_lt, in_int_range, max_int_decimal, min_int_decimal, fits_int64, atoll, normalize_int,
}
use sofa_db.Json.Bignum.Order.{bignum_lt-decimal}

max_text : max_int_decimal ≡ decimal_ℤ (pos (2 ^ 63 - 1))
unfolding decimal_ℤ
max_text = refl

min_text : min_int_decimal ≡ decimal_ℤ (negsuc (2 ^ 63 - 1))
unfolding decimal_ℤ
min_text = refl

pub strtol-digits : (s : Bytes) → all_digits s ≡ true → s ≢ [] → strtol s ≡ pos (digits_value 0 s)
unfolding strtol all_digits
strtol-digits [] h n = absurd (n refl)
strtol-digits (c ∷ s) h n = ground arith

-- Reading the text of an integer gives the integer.
pub strtol-decimal : (i : ℤ) → strtol (decimal_ℤ i) ≡ i
unfolding decimal_ℤ
strtol-decimal (pos n) =
    strtol-digits (decimal n) (decimal-digits n) (decimal-ne-nil n)
    ∙ ap pos (digits_value-decimal n)
strtol-decimal (negsuc n) = unfold strtol in rw (digits_value-decimal (suc n))

-- No two integers have one text.
pub decimal_ℤ-injective : (i j : ℤ) → decimal_ℤ i ≡ decimal_ℤ j → i ≡ j
decimal_ℤ-injective i j h = cc (strtol-decimal i, strtol-decimal j, h)

bytes_eq-decimal : (i j : ℤ) → (bytes_eq (decimal_ℤ i) (decimal_ℤ j) ≡ true) ↔ (i ≡ j)
bytes_eq-decimal i j = (
  λ h. decimal_ℤ-injective i j ((bytes_eq_iff _ _).0 h),
  λ p. (bytes_eq_iff _ _).1 (ap decimal_ℤ p),
)

above_min :
    (i : ℤ)
    → (bignum_lt min_int_decimal (decimal_ℤ i) ≡ ok (ltb_ℤ (negsuc (2 ^ 63 - 1)) i))
      × ((bytes_eq (decimal_ℤ i) min_int_decimal ≡ true) ↔ (i ≡ negsuc (2 ^ 63 - 1)))
above_min i =
    rw min_text
      (bignum_lt-decimal (negsuc (2 ^ 63 - 1)) i, bytes_eq-decimal i (negsuc (2 ^ 63 - 1)))

below_max :
    (i : ℤ)
    → (bignum_lt (decimal_ℤ i) max_int_decimal ≡ ok (ltb_ℤ i (pos (2 ^ 63 - 1))))
      × ((bytes_eq (decimal_ℤ i) max_int_decimal ≡ true) ↔ (i ≡ pos (2 ^ 63 - 1)))
below_max i =
    rw max_text (bignum_lt-decimal i (pos (2 ^ 63 - 1)), bytes_eq-decimal i (pos (2 ^ 63 - 1)))

in_int_range-decimal : (i : ℤ) → in_int_range (decimal_ℤ i) ≡ ok (fits_int64 i)
unfolding in_int_range
in_int_range-decimal i = ground (arith, above_min i, below_max i)

-- A big integer becomes the int of its value exactly if that fits an int64_t, and stays as it is
-- otherwise.
pub normalize_int-decimal :
    (i : ℤ)
    → normalize_int (big_int (decimal_ℤ i))
      ≡ ok (if fits_int64 i then int i else big_int (decimal_ℤ i))
unfolding normalize_int atoll
normalize_int-decimal i = ground (arith, in_int_range-decimal i, strtol-decimal i)
