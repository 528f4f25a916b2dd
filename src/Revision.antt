-- ===== src/Revision.antt =====
-- revision_num_t: libsofadb/database.h and database.cpp.
pub mod Parse
use sofa_db.Prelude.{
  ℕ, suc, true, false, ◌+◌, ◌-◌, ◌%◌, ◌^◌, Bool, not, ◌&&◌, ◌||◌, List, [], ◌∷◌, ◌++◌, Option, none,
  some, length, take, drop, ltb, ◌==◌, if◌then◌else◌,
}
use sofa_db.Prelude.Int.{ℤ, pos, negsuc}
use sofa_db.Text.{Bytes, bytes_eq, find, all_digits, strtol}
use sofa_db.Failure.{Result, ok, fail, undefined, ◌>>=◌, ◌>>◌, err, s_wrong_revision}
use sofa_db.Externals.{Externals}

-- `num` is a uint32_t.
pub record Revision : Type 0 where
  pub stringed : Bytes
  pub num : ℕ
  pub uniq : Bytes

-- revision_num_t() and empty_revision
abbrev pub empty_revision : Revision
empty_revision = record { stringed = []; num = 0; uniq = [] }

-- empty
unfoldable pub is_empty : Revision → Bool
is_empty r = r.num == 0

-- operator==
unfoldable pub revision_eq : Revision → Revision → Bool
revision_eq l r = l.num == r.num && bytes_eq l.uniq r.uniq

-- operator!=
unfoldable pub revision_ne : Revision → Revision → Bool
unfolding revision_eq
revision_ne l r = not (revision_eq l r)

-- int_to_string and append_int_to_string (libsofadb/native_json.cpp)
abbrev pub int_to_string : Externals → ℤ → Bytes
int_to_string x i = x.generate_int i

abbrev pub append_int_to_string : Externals → ℤ → Bytes → Bytes
append_int_to_string x i out = out ++ x.generate_int i

-- revision_num_t(num, uniq).
unfoldable pub make_revision : Externals → ℕ → Bytes → Revision
make_revision x num uniq = record {
  stringed = append_int_to_string x (pos num) [] ++ (b'-' ∷ uniq);
  num = num;
  uniq = uniq;
}

-- atoi: undefined where the number does not fit an int.
unfoldable pub atoi : Bytes → Result ℤ
unfolding strtol
atoi s = elim (strtol s) [
  | pos n ↦ if ltb n (2 ^ 31) then ok (pos n) else fail undefined
  | negsuc n ↦ if ltb n (2 ^ 31) then ok (negsuc n) else fail undefined
]

-- The conversion to uint32_t.
unfoldable pub to_u32 : ℤ → ℕ
to_u32 (pos n) = n % 2 ^ 32
to_u32 (negsuc n) = 2 ^ 32 - 1 - n % 2 ^ 32

-- "Invalid revision: " and "Invalid revision num: "
abbrev pub invalid_revision : Bytes
invalid_revision =
    b'I' ∷ b'n' ∷ b'v' ∷ b'a' ∷ b'l' ∷ b'i' ∷ b'd' ∷ b' ' ∷ b'r' ∷ b'e' ∷ b'v' ∷ b'i' ∷ b's' ∷ b'i'
    ∷ b'o' ∷ b'n' ∷ b':' ∷ b' ' ∷ []

abbrev pub invalid_revision_num : Bytes
invalid_revision_num =
    b'I' ∷ b'n' ∷ b'v' ∷ b'a' ∷ b'l' ∷ b'i' ∷ b'd' ∷ b' ' ∷ b'r' ∷ b'e' ∷ b'v' ∷ b'i' ∷ b's' ∷ b'i'
    ∷ b'o' ∷ b'n' ∷ b' ' ∷ b'n' ∷ b'u' ∷ b'm' ∷ b':' ∷ b' ' ∷ []

-- The second test of the constructor, on the two parts of the text.
unfoldable pub from_parts : Bytes → Bytes → Bytes → Result Revision
unfolding atoi to_u32
from_parts rev rev_num rev_id = do
  if not (all_digits rev_num) then err s_wrong_revision (invalid_revision_num ++ rev) else ok tt
  n ← atoi rev_num
  ok (record { stringed = rev; num = to_u32 n; uniq = rev_id })

-- pos == npos || pos == 0 || pos == size - 1
unfoldable pub misplaced : Option ℕ → ℕ → Bool
misplaced none size = true
misplaced (some at) size = at == 0 || at == size - 1

-- substr(0, pos) and substr(pos + 1), where npos + 1 is 0.
unfoldable pub before_dash : Option ℕ → Bytes → Bytes
before_dash none s = s
before_dash (some at) s = take at s

unfoldable pub after_dash : Option ℕ → Bytes → Bytes
after_dash none s = s
after_dash (some at) s = drop (suc at) s

-- revision_num_t(rev)
unfoldable pub parse_revision : Bytes → Result Revision
unfolding misplaced before_dash after_dash
parse_revision [] = ok empty_revision
parse_revision (c ∷ s) = do
  let rev = c ∷ s
  let at = find b'-' rev
  if misplaced at (length rev) then err s_wrong_revision (invalid_revision ++ rev) else ok tt
  from_parts rev (before_dash at rev) (after_dash at rev)
