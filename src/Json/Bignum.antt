-- ===== src/Json/Bignum.antt =====
-- bignum_t, its order, and json_value::normalize_int (libsofadb/native_json.cpp).
pub mod Order
pub mod Normal
use sofa_db.Prelude.{
  ℕ, suc, ◌-◌, ◌^◌, Bool, true, false, not, ◌&&◌, ◌||◌, [], ◌∷◌, length, ltb, ◌==◌, if◌then◌else◌,
}
use sofa_db.Prelude.Int.{ℤ, pos, negsuc, ltb_ℤ}
use sofa_db.Text.{Bytes, bytes_eq, bytes_lt, decimal, strtol}
use sofa_db.Failure.{Result, ok, fail, out_of_range, bad_cast, undefined, ◌>>=◌}
use sofa_db.Json.Value.{JsonValue, int, big_int}

-- digits_.at(0) == '-'
unfoldable pub is_negative : Bytes → Result Bool
is_negative [] = fail out_of_range
is_negative (c ∷ s) = ok (c == b'-')

-- operator< on bignum_t, after the signs have been read.
unfoldable pub compare_digits : Bool → Bool → Bytes → Bytes → Bool
compare_digits true false l r = true
compare_digits false true l r = false
compare_digits lneg rneg l r =
    if not (length l == length r)
    then (if lneg then ltb (length r) (length l) else ltb (length l) (length r))
    else if lneg
    then bytes_lt r l
    else bytes_lt l r

-- operator< (bignum_t, bignum_t)
unfoldable pub bignum_lt : Bytes → Bytes → Result Bool
unfolding is_negative compare_digits
bignum_lt l r = do lneg ← is_negative l; rneg ← is_negative r; ok (compare_digits lneg rneg l r)

-- max_int_decimal and min_int_decimal
abbrev pub max_int_decimal : Bytes
max_int_decimal =
    b'9' ∷ b'2' ∷ b'2' ∷ b'3' ∷ b'3' ∷ b'7' ∷ b'2' ∷ b'0' ∷ b'3' ∷ b'6' ∷ b'8' ∷ b'5' ∷ b'4' ∷ b'7'
    ∷ b'7' ∷ b'5' ∷ b'8' ∷ b'0' ∷ b'7' ∷ []

abbrev pub min_int_decimal : Bytes
min_int_decimal =
    b'-' ∷ b'9' ∷ b'2' ∷ b'2' ∷ b'3' ∷ b'3' ∷ b'7' ∷ b'2' ∷ b'0' ∷ b'3' ∷ b'6' ∷ b'8' ∷ b'5' ∷ b'4'
    ∷ b'7' ∷ b'7' ∷ b'5' ∷ b'8' ∷ b'0' ∷ b'8' ∷ []

abbrev pub fits_int64 : ℤ → Bool
fits_int64 (pos n) = ltb n (2 ^ 63)
fits_int64 (negsuc n) = ltb n (2 ^ 63)

-- atoll: undefined where the number does not fit an int64_t.
unfoldable pub atoll : Bytes → Result ℤ
unfolding strtol
atoll s = if fits_int64 (strtol s) then ok (strtol s) else fail undefined

-- num > min || num == min, then num < max || num == max
unfoldable pub in_int_range : Bytes → Result Bool
in_int_range num = do
  above ← bignum_lt min_int_decimal num
  if not (above || bytes_eq num min_int_decimal)
      then ok false
      else do below ← bignum_lt num max_int_decimal; ok (below || bytes_eq num max_int_decimal)

-- json_value::normalize_int
unfoldable pub normalize_int : JsonValue → Result JsonValue
unfolding in_int_range
normalize_int (int i) = ok (int i)
normalize_int (big_int num) = do
  small ← in_int_range num
  if small then (do i ← atoll num; ok (int i)) else ok (big_int num)
normalize_int v = fail bad_cast
