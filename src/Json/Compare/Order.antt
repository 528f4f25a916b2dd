-- ===== src/Json/Compare/Order.antt =====
-- How an int and a big integer compare.
use sofa_db.Prelude.{◌≡◌, refl, true, if◌then◌else◌, arith}
use sofa_db.Prelude.Int.{ℤ, ltb_ℤ, eqb_ℤ}
use sofa_db.Text.{decimal_ℤ}
use sofa_db.Failure.{ok}
use sofa_db.Json.Value.{int, big_int}
use sofa_db.Json.Bignum.{normalize_int, fits_int64}
use sofa_db.Json.Bignum.Normal.{normalize_int-decimal}
use sofa_db.Json.Compare.{against, operate, json_eq, json_lt}

normalize_int-int : (i : ℤ) → normalize_int (int i) ≡ ok (int i)
unfolding normalize_int
normalize_int-int i = refl

-- An int that fits an int64_t is equal to a big integer, on either side, exactly if they stand
-- for one number.
pub json_eq-int_big_int :
    (i j : ℤ)
    → fits_int64 i ≡ true
    → (json_eq (int i) (big_int (decimal_ℤ j)) ≡ ok (eqb_ℤ i j))
      × (json_eq (big_int (decimal_ℤ j)) (int i) ≡ ok (eqb_ℤ i j))
unfolding json_eq against operate
json_eq-int_big_int i j h = ground (arith, normalize_int-int i, normalize_int-decimal j)

-- An int is less than a big integer that is the decimal text of an integer exactly if its number
-- is, where that integer fits an int64_t, and is less than the big integer whatever the number
-- is where it does not fit: less than every one below -2 ^ 63 too.
pub json_lt-int_big_int :
    (i j : ℤ)
    → json_lt (int i) (big_int (decimal_ℤ j)) ≡ ok (if fits_int64 j then ltb_ℤ i j else true)
unfolding json_lt against operate
json_lt-int_big_int i j = ground (arith, normalize_int-int i, normalize_int-decimal j)
