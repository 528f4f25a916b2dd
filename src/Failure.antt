-- ===== src/Failure.antt =====
-- Result codes and exceptions: libsofadb/errors.h and errors.cpp.
pub mod Laws
use sofa_db.Prelude.{ℕ, Bool, true, false, ◌&&◌, [], ◌∷◌, ◌++◌, leb, ◌≡◌, refl, if◌then◌else◌}
use sofa_db.Text.{Bytes, decimal}

-- result_code_t::code_e
pub data Code : Type 0 where
  s_ok s_accepted s_created s_wrong_revision s_not_found s_conflict s_error : Code

unfoldable pub code_value : Code → ℕ
code_value s_ok = 200
code_value s_accepted = 202
code_value s_created = 201
code_value s_wrong_revision = 400
code_value s_not_found = 404
code_value s_conflict = 409
code_value s_error = 500

-- result_code_t
pub record ResultCode : Type 0 where
  pub code : Code
  pub desc : Bytes

-- The constructor's default description, "None".
abbrev pub none_text : Bytes
none_text = b'N' ∷ b'o' ∷ b'n' ∷ b'e' ∷ []

-- result_code_t(code)
abbrev pub result_code : Code → ResultCode
result_code c = record { code = c; desc = none_text }

-- result_code_t::ok
unfoldable pub is_ok : ResultCode → Bool
unfolding code_value
is_ok r = leb 200 (code_value r.code) && leb (code_value r.code) 201

-- What ends a call early: a sofa_exception, an exception of a library, an assertion
-- that does not hold, or a step whose behaviour C++ leaves undefined.
pub data Failure : Type 0 where
  sofa_exception : ResultCode → Failure
  bad_cast out_of_range bad_exception system_error assertion undefined : Failure

pub data Result {ℓ} (A : Type ℓ) : Type ℓ where
  ok : A → Result A
  fail : Failure → Result A

infixl 10 ◌>>=◌ ◌>>◌
abbrev pub ◌>>=◌ {ℓ κ} : {A : Type ℓ} {B : Type κ} → Result A → (A → Result B) → Result B
ok a >>= f = f a
fail e >>= f = fail e

abbrev pub ◌>>◌ {ℓ} : {B : Type ℓ} → Result (Unit {0}) → Result B → Result B
m >> k = m >>= λ _. k

-- assert(b)
abbrev pub assert : Bool → Result (Unit {0})
assert true = ok tt
assert false = fail assertion

-- ~err: an `err(code) << text` throws unless the code is sOk.
unfoldable pub err : Code → Bytes → Result (Unit {0})
err s_ok text = ok tt
err c text = fail (sofa_exception (record { code = c; desc = text }))

-- operator | (code, die)
unfoldable pub die : ResultCode → Result (Unit {0})
unfolding is_ok
die r = if is_ok r then ok tt else fail (sofa_exception r)

-- "Error code: " and ", description: "
abbrev pub error_code_text : Bytes
error_code_text =
    b'E' ∷ b'r' ∷ b'r' ∷ b'o' ∷ b'r' ∷ b' ' ∷ b'c' ∷ b'o' ∷ b'd' ∷ b'e' ∷ b':' ∷ b' ' ∷ []

abbrev pub description_text : Bytes
description_text =
    b',' ∷ b' ' ∷ b'd' ∷ b'e' ∷ b's' ∷ b'c' ∷ b'r' ∷ b'i' ∷ b'p' ∷ b't' ∷ b'i' ∷ b'o' ∷ b'n' ∷ b':'
    ∷ b' ' ∷ []

-- sofa_exception::what
unfoldable pub what : ResultCode → Bytes
unfolding code_value
what r = error_code_text ++ (decimal (code_value r.code) ++ (description_text ++ r.desc))
