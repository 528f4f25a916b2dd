-- ===== src/Tools/DumpLdb.antt =====
-- dumpldb (tools/dumpldb.cpp): the keys and the values of a LevelDB, one pair to a line.
pub mod Prints
use sofa_db.Prelude.{
  ℕ, zero, suc, ◌-◌, ◌/◌, ◌%◌, Bool, true, false, ◌&&◌, List, [], ◌∷◌, ◌++◌, Option, none, some,
  leb, ltb, ◌==◌, if◌then◌else◌,
}
use sofa_db.Prelude.Int.{ℤ, pos, negsuc}
use sofa_db.Text.{Bytes}
use sofa_db.Failure.{Result, ok, fail, undefined, ◌>>=◌}
use sofa_db.Database.{hex_digit}

-- A byte of a Slice as a char, which is signed.
unfoldable pub char_of : ℕ → ℤ
char_of c = if ltb c 128 then pos c else negsuc (255 - c)

-- isprint in the locale of C. A negative char is no character to it, and not printable.
unfoldable pub is_print : ℤ → Bool
is_print (pos c) = leb 32 c && leb c 126
is_print (negsuc c) = false

-- / and % on an int, by a divisor above 0: the quotient is cut towards 0, and the remainder has the
-- sign of what is divided.
unfoldable pub negated : ℕ → ℤ
negated zero = pos 0
negated (suc n) = negsuc n

unfoldable pub quotient : ℤ → ℕ → ℤ
unfolding negated
quotient (pos n) k = pos (n / k)
quotient (negsuc n) k = negated (suc n / k)

unfoldable pub remainder : ℤ → ℕ → ℤ
unfolding negated
remainder (pos n) k = pos (n % k)
remainder (negsuc n) k = negated (suc n % k)

-- alphabet[i], an array of the sixteen digits and a NUL behind them.
unfoldable pub alphabet_at : ℤ → Result ℕ
unfolding hex_digit
alphabet_at (negsuc n) = fail undefined
alphabet_at (pos n) =
    if ltb n 16 then ok (hex_digit n) else if n == 16 then ok 0 else fail undefined

-- The text of one character of a value.
unfoldable pub print_byte : ℕ → Result Bytes
unfolding char_of is_print quotient remainder alphabet_at
print_byte c =
    if c == 10
    then ok (b'\\' ∷ (b'n' ∷ []))
    else if c == 13
    then ok (b'\\' ∷ (b'r' ∷ []))
    else if is_print (char_of c)
    then ok (c ∷ [])
    else do
      high ← alphabet_at (quotient (char_of c) 16)
      low ← alphabet_at (remainder (char_of c) 16)
      ok (b'\\' ∷ (high ∷ (low ∷ [])))

-- The loop of print_pair.
unfoldable pub print_bytes : Bytes → Result Bytes
unfolding print_byte
print_bytes [] = ok []
print_bytes (c ∷ s) = print_byte c >>= λ t. (print_bytes s >>= λ u. ok (t ++ u))

-- print_pair
unfoldable pub print_pair : Bytes → Bytes → Result Bytes
unfolding print_bytes
print_pair key val =
    print_bytes val >>= λ t. ok (key ++ (b' ' ∷ (b':' ∷ (b' ' ∷ (t ++ (10 ∷ []))))))

-- The calls of leveldb::Iterator.
pub record Iterator : Type 1 where
  pub State : Type 0
  pub seek_to_first : State → State
  pub is_valid : State → Bool
  pub is_ok : State → Bool
  pub key : State → Bytes
  pub value : State → Bytes
  pub next : State → State

module _ (it : Iterator) where
  -- What follows a printed pair.
  unfoldable pub after_pair :
      (Bytes → Option (Result (ℕ × Bytes))) → Bytes → Result Bytes → Option (Result (ℕ × Bytes))
  after_pair rest out (fail failure) = some (fail failure)
  after_pair rest out (ok line) = rest (out ++ line)

  -- The loop of main: what main returns, and what it has printed. A round spends a unit of fuel;
  -- `none` says that there is none left.
  unfoldable pub dump_all : ℕ → it.State → Bytes → Option (Result (ℕ × Bytes))
  unfolding after_pair print_pair
  dump_all zero i out = none
  dump_all (suc fuel) i out =
      let rest = after_pair (dump_all fuel (it.next i)) out (print_pair (it.key i) (it.value i)) in
      if it.is_valid i
      then (if it.is_ok i then rest else some (ok (2, out)))
      else some (ok (0, out))

  -- main, after its arguments: `opened` says whether the database could be opened.
  unfoldable pub dump_ldb : Bool → ℕ → it.State → Option (Result (ℕ × Bytes))
  unfolding dump_all
  dump_ldb opened fuel i =
      if opened then dump_all fuel (it.seek_to_first i) [] else some (ok (1, []))
