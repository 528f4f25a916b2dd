-- ===== src/Text/Decimal.antt =====
-- The decimal digits of a number.
use sofa_db.Prelude.{
  ◌≢◌, ℕ, zero, suc, ◌+◌, ◌-◌, ◌*◌, ◌/◌, ◌%◌, ◌<◌, ◌≡◌, refl, ◌≢◌, true, [], ◌∷◌, ◌++◌, arith,
}
use sofa_db.Text.{Bytes, all_digits, decimal_fuel, decimal, digits_value}

pub all_digits-append :
    (s t : Bytes) → all_digits s ≡ true → all_digits t ≡ true → all_digits (s ++ t) ≡ true
unfolding all_digits
all_digits-append [] t h k = k
all_digits-append (c ∷ s) t h k = ground (arith, all_digits-append s t)

decimal_fuel-digits : (f n : ℕ) → all_digits (decimal_fuel f n) ≡ true
unfolding decimal_fuel all_digits
decimal_fuel-digits zero n = refl
decimal_fuel-digits (suc f) n = ground (
  arith,
  all_digits-append (decimal_fuel f (n / 10)) ((48 + n % 10) ∷ []) (decimal_fuel-digits f (n / 10)),
)

pub decimal-digits : (n : ℕ) → all_digits (decimal n) ≡ true
unfolding decimal
decimal-digits n = decimal_fuel-digits (suc n) n

-- Reading past a run of digits goes on from the value read so far.
pub digits_value-append :
    (s t : Bytes) (acc : ℕ)
    → all_digits s ≡ true
    → digits_value acc (s ++ t) ≡ digits_value (digits_value acc s) t
unfolding all_digits digits_value
digits_value-append [] t acc h = refl
digits_value-append (c ∷ s) t acc h = ground (arith, digits_value-append s t (acc * 10 + (c - 48)))

decimal_fuel-value : (f n : ℕ) → n < f → digits_value 0 (decimal_fuel f n) ≡ n
unfolding decimal_fuel digits_value
decimal_fuel-value zero n h = elim h [ ]
decimal_fuel-value (suc f) n h = ground (
  arith,
  digits_value-append (decimal_fuel f (n / 10)) ((48 + n % 10) ∷ []) 0
      (decimal_fuel-digits f (n / 10)),
  decimal_fuel-value f (n / 10),
)

-- Reading a printed number gives the number back.
pub digits_value-decimal : (n : ℕ) → digits_value 0 (decimal n) ≡ n
unfolding decimal
digits_value-decimal n = decimal_fuel-value (suc n) n (omega arith)

append_last-ne-nil : (s : Bytes) (c : ℕ) → s ++ (c ∷ []) ≢ []
append_last-ne-nil [] c = cc
append_last-ne-nil (b ∷ s) c = cc

-- A printed number has a digit.
pub decimal-ne-nil : (n : ℕ) → decimal n ≢ []
unfolding decimal decimal_fuel
decimal-ne-nil n = ground (arith, append_last-ne-nil (decimal_fuel n (n / 10)) (48 + n % 10))
