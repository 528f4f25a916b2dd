-- ===== src/Streams/Laws.antt =====
-- What reading a buffer through the stream gives.
use sofa_db.Prelude.{
  ℕ, zero, suc, ◌+◌, ◌-◌, ◌≡◌, ◌≤◌, refl, ap, true, false, none, some, [], ◌∷◌, ◌++◌, length,
  length-append, append_assoc, sym, take, drop, get_elem?, arith,
}
use sofa_db.Text.{Bytes}
use sofa_db.Streams.{BufReadStream, take_char, get_sub_sequence, open_buffer}

-- The bytes that `n` calls of Take give, and the stream behind them.
unfoldable pub take_many : ℕ → BufReadStream → Bytes × BufReadStream
unfolding take_char
take_many zero r = ([], r)
take_many (suc n) r = let (c, r') = take_char r in let (cs, r'') = take_many n r' in (c ∷ cs, r'')

get_elem?-append : (s : Bytes) (c : ℕ) (t : Bytes) → get_elem? (s ++ (c ∷ t)) (length s) ≡ some c
get_elem?-append [] c t = refl
get_elem?-append (b ∷ s) c t = get_elem?-append s c t

get_elem?-length : (s : Bytes) → get_elem? s (length s) ≡ none
get_elem?-length [] = refl
get_elem?-length (c ∷ s) = get_elem?-length s

-- The bytes behind the position are what Take gives.
take_many-rest :
    (s t : Bytes) (i : ℕ)
    → i ≡ length s
    → take_many (length t) (record { buffer = s ++ t; current = i; eof = false })
      ≡ (t, record { buffer = s ++ t; current = i + length t; eof = false })
unfolding take_many
take_many-rest s [] i e = ground arith
take_many-rest s (c ∷ t) i e =
    let whole : s ++ (c ∷ t) ≡ (s ++ (c ∷ [])) ++ t = sym (append_assoc s (c ∷ []) t) in
    let rest =
      take_many-rest (s ++ (c ∷ [])) t (i + 1) (omega (arith, e, length-append {0} s (c ∷ []))) in
    let here : get_elem? (s ++ (c ∷ t)) i ≡ some c = rw e (get_elem?-append s c t) in
    ground (arith, here, rw (← whole) at rest, length-append {0} s (c ∷ t))

-- Reading a buffer byte by byte gives the buffer, and one call of Take more gives a NUL, leaves
-- the position at the end and sets the end-of-file mark.
pub take_many-open_buffer :
    (s : Bytes)
    → (take_many (length s) (open_buffer s)
        ≡ (s, record { buffer = s; current = length s; eof = false }))
      × (take_char (record { buffer = s; current = length s; eof = false })
          ≡ (0, record { buffer = s; current = length s; eof = true }))
unfolding take_char
take_many-open_buffer s =
    (ground (arith, take_many-rest [] s 0 (omega arith)), ground (arith, get_elem?-length s))

take_all : (s : Bytes) (n : ℕ) → length s ≤ n → take n s ≡ s
take_all [] zero h = refl
take_all [] (suc n) h = refl
take_all (c ∷ s) zero h = elim h [ ]
take_all (c ∷ s) (suc n) h = ap (λ t. c ∷ t) (take_all s n (omega arith))

drop_all : (s : Bytes) (n : ℕ) → length s ≤ n → drop n s ≡ []
drop_all s zero h = ground arith
drop_all [] (suc n) h = refl
drop_all (c ∷ s) (suc n) h = drop_all s n (omega arith)

pub length-drop : (s : Bytes) (n : ℕ) → length (drop n s) ≡ length s - n
length-drop s zero = omega arith
length-drop [] (suc n) = omega arith
length-drop (c ∷ s) (suc n) = omega (arith, length-drop s n)

take-nil : (n : ℕ) → take {A = ℕ} n [] ≡ []
take-nil zero = refl
take-nil (suc n) = refl

-- GetSubSequence gives the bytes from a position on, as many as are asked for or as there are,
-- and never reads past the buffer.
pub get_sub_sequence_lem :
    (r : BufReadStream) (pos ln : ℕ) → get_sub_sequence r pos ln ≡ take ln (drop pos r.buffer)
unfolding get_sub_sequence
get_sub_sequence_lem r pos ln = ground (
  arith,
  drop_all r.buffer pos,
  take-nil ln,
  length-drop r.buffer pos,
  take_all (drop pos r.buffer) ln,
  take_all (drop pos r.buffer) (length r.buffer - pos),
)
