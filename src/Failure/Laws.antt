-- ===== src/Failure/Laws.antt =====
-- Result codes and `| die` (libsofadb/errors.h), and lemmas on results.
use sofa_db.Prelude.{◌≡◌, refl, ◌≢◌, ◌↔◌, ◌⊎◌, arith}
use sofa_db.Text.{Bytes}
use sofa_db.Failure.{
  Code, s_ok, s_created, ResultCode, Result, ok, fail, sofa_exception, ◌>>=◌, die, err,
}

pub ok-injective {ℓ} : {A : Type ℓ} {a b : A} → ok a ≡ ok b → a ≡ b
ok-injective h = cc

-- A call that goes on and returns has gone on with some value.
pub >>=-ok {ℓ κ} :
    {A : Type ℓ} {B : Type κ} {done : B} (next : A → Result B) (first : Result A)
    → (first >>= next) ≡ ok done
    → (mid : A) × (next mid ≡ ok done) × (first ≡ ok mid)
>>=-ok next (fail e) h = cc
>>=-ok next (ok mid) h = (mid, h, refl)

-- `code | die` goes on exactly for sOk and sCreated; every other code, sAccepted too, is thrown
-- with its description.
pub die_iff :
    (r : ResultCode)
    → ((die r ≡ ok tt) ↔ ((r.code ≡ s_ok) ⊎ (r.code ≡ s_created)))
      × (r.code ≢ s_ok → r.code ≢ s_created → die r ≡ fail (sofa_exception r))
unfolding die
die_iff r = ground arith

-- `err(code) << text` goes on exactly when the code is sOk.
pub err-throws : (c : Code) (text : Bytes) → (err c text ≡ ok tt) ↔ (c ≡ s_ok)
unfolding err
err-throws s_ok text = ground arith
err-throws _ text = ground arith
