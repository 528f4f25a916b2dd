-- ===== src/Tools/DumpLdb/Prints.antt =====
-- What dumpldb prints.
use sofa_db.Prelude.{
  ℕ, zero, suc, ◌+◌, ◌-◌, ◌*◌, ◌≢◌, Bool, not, ◌&&◌, leb, ◌/◌, ◌%◌, ◌<◌, ◌≤◌, ◌≡◌, refl, sym, ap,
  ◌∙◌, inl, inr, true, false, List, [], ◌∷◌, ◌++◌, some, All, length, get_elem?, append_assoc,
  append-nil, Bool-cases, ltb, ◌==◌, if◌then◌else◌, arith,
}
use sofa_db.Prelude.Int.{pos}
use sofa_db.Text.{Bytes}
use sofa_db.Failure.{ok, fail, undefined}
use sofa_db.Database.{hex_digit}
use sofa_db.Tools.DumpLdb.{
  char_of, is_print, negated, quotient, remainder, alphabet_at, print_byte, print_bytes, print_pair,
  Iterator, after_pair, dump_all,
}

-- A byte as it is shown: a printable one as it is, the others behind a backslash.
unfoldable pub shown_byte : ℕ → Bytes
unfolding is_print
shown_byte c =
    if is_print (pos c)
    then c ∷ []
    else if c == 10
    then b'\\' ∷ (b'n' ∷ [])
    else if c == 13
    then b'\\' ∷ (b'r' ∷ [])
    else b'\\' ∷ (hex_digit (c / 16) ∷ (hex_digit (c % 16) ∷ []))

unfoldable pub shown : Bytes → Bytes
unfolding shown_byte
shown [] = []
shown (c ∷ s) = shown_byte c ++ shown s

print_byte-shown : (c : ℕ) → c < 128 → print_byte c ≡ ok (shown_byte c)
unfolding print_byte shown_byte is_print char_of quotient remainder alphabet_at
print_byte-shown c h = ground arith

print_byte-high : (c : ℕ) → 128 ≤ c → print_byte c ≡ fail undefined
unfolding print_byte is_print char_of quotient remainder alphabet_at negated
print_byte-high c h = ground arith

print_bytes-shown : (s : Bytes) → All (λ c. c < 128) s → print_bytes s ≡ ok (shown s)
unfolding print_bytes shown
print_bytes-shown [] h = refl
print_bytes-shown (c ∷ s) h = rw (print_byte-shown c h.0, print_bytes-shown s h.1) refl

-- A byte from 128 on, wherever it stands in a value, takes print_pair's loop out of the bounds
-- of its alphabet: char is signed, so that the byte is a negative one, and so is one of the two
-- indices.
pub print_bytes-high :
    (s : Bytes) (n c : ℕ) → get_elem? s n ≡ some c → 128 ≤ c → print_bytes s ≡ fail undefined
unfolding print_bytes
print_bytes-high [] n c e h = absurd (cc e)
print_bytes-high (b ∷ s) zero c e h = rw (print_byte-high b (ground (arith, e, h))) refl
print_bytes-high (b ∷ s) (suc n) c e h = elim (Bool-cases (ltb b 128)) [
  | inl low ↦ rw (print_byte-shown b (ground (arith, low)), print_bytes-high s n c e h) refl
  | inr high ↦ rw (print_byte-high b (ground (arith, high))) refl
]

-- A printable character of ASCII.
abbrev pub Printable : ℕ → Type 0
Printable c = (32 ≤ c) × (c ≤ 126)

-- What a reader of the output makes of it: behind a backslash stands an n, an r, or two digits.
pub data Reading : Type 0 where
  plain escaped : Reading
  half : ℕ → Reading

unfoldable pub hex_value : ℕ → ℕ
hex_value c = if leb c b'9' then c - b'0' else c - b'a' + 10

unfoldable pub unprint : Reading → Bytes → Bytes
unfolding hex_value
unprint plain [] = []
unprint escaped [] = []
unprint (half h) [] = []
unprint plain (c ∷ t) =
    let text = unprint plain t in
    let behind = unprint escaped t in if c == b'\\' then behind else c ∷ text
unprint escaped (c ∷ t) =
    let text = unprint plain t in
    let low = unprint (half (hex_value c)) t in
    if c == b'n' then 10 ∷ text else if c == b'r' then 13 ∷ text else low
unprint (half h) (c ∷ t) = (16 * h + hex_value c) ∷ unprint plain t

-- A test that every number below a bound passes.
abbrev all_below : ℕ → (ℕ → Bool) → Bool
all_below zero p = true
all_below (suc n) p = p n && all_below n p

all_below_lem : (n k : ℕ) (p : ℕ → Bool) → all_below n p ≡ true → k < n → p k ≡ true
all_below_lem zero k p e h = absurd (omega arith)
all_below_lem (suc n) k p e h = elim (Bool-cases (k == n)) [
  | inl same ↦ let here : k ≡ n = ground (arith, same) in rw here (ground (arith, e))
  | inr other ↦ all_below_lem n k p (ground (arith, e)) (ground (arith, h, other))
]

reads_back : ℕ → Bool
unfolding hex_value
reads_back n =
    (hex_value (hex_digit n) == n)
    && (leb 32 (hex_digit n)
        && (leb (hex_digit n) 126 && (not (hex_digit n == b'n') && not (hex_digit n == b'r'))))

hex_digit-reads_back : (n : ℕ) → n < 16 → reads_back n ≡ true
hex_digit-reads_back n h =
    all_below_lem 16 n reads_back (unfold reads_back hex_digit hex_value in refl) h

shown_byte-Printable : (c : ℕ) → c < 128 → All Printable (shown_byte c)
unfolding shown_byte is_print reads_back
shown_byte-Printable c h =
    ground (arith, h, hex_digit-reads_back (c / 16), hex_digit-reads_back (c % 16))

record ReadsBack (n : ℕ) : Type 0 where
  value : hex_value (hex_digit n) ≡ n
  no_n : (hex_digit n == b'n') ≡ false
  no_r : (hex_digit n == b'r') ≡ false

hex_digit-ReadsBack : (n : ℕ) → n < 16 → ReadsBack n
unfolding reads_back
hex_digit-ReadsBack n h =
    let test = hex_digit-reads_back n h in
    record {
      value = ground (arith, test);
      no_n = ground (arith, test);
      no_r = ground (arith, test);
    }

unprint-digits :
    (h l : ℕ) (t : Bytes)
    → h < 16
    → l < 16
    → unprint plain (b'\\' ∷ (hex_digit h ∷ (hex_digit l ∷ t))) ≡ (16 * h + l) ∷ unprint plain t
unfolding unprint
unprint-digits h l t b b' =
    let first = hex_digit-ReadsBack h b in
    rw (first.no_n, first.no_r, first.value, (hex_digit-ReadsBack l b').value) refl

unprint-shown_byte :
    (c : ℕ) (t : Bytes)
    → c < 128
    → c ≢ b'\\'
    → unprint plain (shown_byte c ++ t) ≡ c ∷ unprint plain t
unfolding shown_byte
unprint-shown_byte c t h n =
    let whole : 16 * (c / 16) + c % 16 ≡ c = omega arith in
    let other : (c == b'\\') ≡ false = ground (arith, n) in
    elim (Bool-cases (is_print (pos c))) [
      | inl printed ↦ rw printed (unfold unprint in rw other refl)
      | inr unprinted ↦ rw unprinted (elim (Bool-cases (c == 10)) [
        | inl line ↦ rw line (unfold unprint in ground (arith, line))
        | inr no_line ↦ rw no_line (elim (Bool-cases (c == 13)) [
          | inl cr ↦ rw cr (unfold unprint in ground (arith, cr))
          | inr no_cr ↦ rw no_cr (
              unprint-digits (c / 16) (c % 16) t (omega arith) (omega arith)
              ∙ ap (λ k. k ∷ unprint plain t) whole)
        ])
      ])
    ]

All-append : (P : ℕ → Type 0) (s t : Bytes) → All P s → All P t → All P (s ++ t)
All-append P [] t h k = k
All-append P (c ∷ s) t h k = (h.0, All-append P s t h.1 k)

shown-Printable : (s : Bytes) → All (λ c. c < 128) s → All Printable (shown s)
unfolding shown
shown-Printable [] h = tt
shown-Printable (c ∷ s) h =
    All-append Printable (shown_byte c) (shown s) (shown_byte-Printable c h.0)
      (shown-Printable s h.1)

unprint-shown :
    (s : Bytes) → All (λ c. c < 128) s → All (λ c. c ≢ b'\\') s → unprint plain (shown s) ≡ s
unfolding shown
unprint-shown [] h n = unfold unprint in refl
unprint-shown (c ∷ s) h n =
    unprint-shown_byte c (shown s) h.0 n.0 ∙ ap (λ t. c ∷ t) (unprint-shown s h.1 n.1)

-- Where every byte of a value is below 128, print_pair's loop prints it as printable characters,
-- with no line break among them, and if the value holds no backslash it is read back from what
-- is printed: a backslash before an n is a line feed, before an r a carriage return, and before
-- two hexadecimal digits the byte that they are.
pub unprint-print_bytes :
    (s : Bytes)
    → All (λ c. c < 128) s
    → (t : Bytes) × (print_bytes s ≡ ok t)
      × All Printable t
      × (All (λ c. c ≢ b'\\') s → unprint plain t ≡ s)
unprint-print_bytes s h = (shown s, print_bytes-shown s h, shown-Printable s h, unprint-shown s h)

module _ (it : Iterator) where
  -- An iterator that goes through a list of pairs.
  pub data Visits : it.State → List (Bytes × Bytes) → Type 0 where
    at_end : {i : it.State} → it.is_valid i ≡ false → Visits i []
    at_pair :
        {i : it.State} {l : List (Bytes × Bytes)}
        → it.is_valid i ≡ true
        → it.is_ok i ≡ true
        → Visits (it.next i) l
        → Visits i ((it.key i, it.value i) ∷ l)

  -- The lines of the pairs.
  unfoldable pub lines : List (Bytes × Bytes) → Bytes
  unfolding shown
  lines [] = []
  lines ((k, v) ∷ l) = (k ++ (b' ' ∷ (b':' ∷ (b' ' ∷ (shown v ++ (10 ∷ [])))))) ++ lines l

  -- dumpldb prints the pairs in the order of the iterator, and returns 0. The values' bytes are
  -- below 128, the iteration meets no error, and there is fuel for each pair and one more.
  pub dump_all-lines :
      (fuel : ℕ) (i : it.State) (l : List (Bytes × Bytes)) (out : Bytes)
      → Visits i l
      → All (λ (p : Bytes × Bytes). All (λ c. c < 128) p.1) l
      → length l < fuel
      → dump_all it fuel i out ≡ some (ok (0, out ++ lines l))
  unfolding dump_all after_pair print_pair lines
  dump_all-lines zero i l out v h b = absurd (omega arith)
  dump_all-lines (suc fuel) i _ out (at_end e) h b =
      rw e (ap (λ o. some (ok (0, o))) (sym (append-nil out)))
  dump_all-lines (suc fuel) i _ out (at_pair {l = l} e k v) h b =
      rw (e, k, print_bytes-shown (it.value i) h.0)
        (dump_all-lines fuel (it.next i) l _ v h.1 (omega (arith, b))
          ∙ ap (λ o. some (ok (0, o))) (append_assoc out _ (lines l)))
