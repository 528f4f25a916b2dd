-- ===== src/Tests/Codec.antt =====
-- Libraries for the tests: a text format that meets what theorems suppose of RapidJSON, decimal
-- numbers for Boost.Karma, and a digest of sixteen bytes.
use sofa_db.Prelude.{
  ℕ, zero, suc, ◌≡◌, ◌==◌, refl, ap, ap₂, sym, ◌∙◌, true, false, List, [], ◌∷◌, ◌++◌, none,
  append_assoc, append-nil, if◌then◌else◌, arith,
}
use sofa_db.Prelude.Int.{pos, negsuc}
use sofa_db.Text.{Bytes, decimal_ℤ}
use sofa_db.Json.Events.{WriteEvent, print}
use sofa_db.Externals.{Externals}
use sofa_db.Externals.Laws.{reread, reread_all, IsDocumented}

-- A text is its bytes, each one higher, and a zero.
abbrev pub encode_text : Bytes → Bytes
encode_text [] = 0 ∷ []
encode_text (c ∷ s) = suc c ∷ encode_text s

abbrev pub encode : WriteEvent → Bytes
encode WriteEvent.null = 0 ∷ []
encode WriteEvent.start_object = 1 ∷ []
encode WriteEvent.end_object = 2 ∷ []
encode WriteEvent.start_array = 3 ∷ []
encode WriteEvent.end_array = 4 ∷ []
encode (WriteEvent.bool true) = 5 ∷ []
encode (WriteEvent.bool false) = 6 ∷ []
encode (WriteEvent.int64 (pos n)) = 7 ∷ (n ∷ [])
encode (WriteEvent.int64 (negsuc n)) = 8 ∷ (n ∷ [])
encode (WriteEvent.double d) = 9 ∷ (d ∷ [])
encode (WriteEvent.string s) = 10 ∷ encode_text s
encode (WriteEvent.big_int s) = 11 ∷ encode_text s

abbrev pub encode_all : List WriteEvent → Bytes
encode_all [] = []
encode_all (e ∷ es) = encode e ++ encode_all es

pub data Mode : Type 0 where
  ready in_pos in_negsuc in_double : Mode
  in_string in_big : Bytes → Mode

abbrev pub start_event : ℕ → Mode × List WriteEvent
start_event c =
    if c == 0
    then (ready, WriteEvent.null ∷ [])
    else if c == 1
    then (ready, WriteEvent.start_object ∷ [])
    else if c == 2
    then (ready, WriteEvent.end_object ∷ [])
    else if c == 3
    then (ready, WriteEvent.start_array ∷ [])
    else if c == 4
    then (ready, WriteEvent.end_array ∷ [])
    else if c == 5
    then (ready, WriteEvent.bool true ∷ [])
    else if c == 6
    then (ready, WriteEvent.bool false ∷ [])
    else if c == 7
    then (in_pos, [])
    else if c == 8
    then (in_negsuc, [])
    else if c == 9
    then (in_double, [])
    else if c == 10
    then (in_string [], [])
    else (in_big [], [])

abbrev pub decode_step : Mode → ℕ → Mode × List WriteEvent
decode_step ready c = start_event c
decode_step in_pos n = (ready, WriteEvent.int64 (pos n) ∷ [])
decode_step in_negsuc n = (ready, WriteEvent.int64 (negsuc n) ∷ [])
decode_step in_double d = (ready, WriteEvent.double d ∷ [])
decode_step (in_string s) zero = (ready, WriteEvent.string s ∷ [])
decode_step (in_string s) (suc c) = (in_string (s ++ (c ∷ [])), [])
decode_step (in_big s) zero = (ready, WriteEvent.big_int s ∷ [])
decode_step (in_big s) (suc c) = (in_big (s ++ (c ∷ [])), [])

abbrev pub decode : Mode → Bytes → List WriteEvent
decode mode [] = []
decode mode (c ∷ s) = let (mode', es) = decode_step mode c in es ++ decode mode' s

decode-string :
    (acc s rest : Bytes)
    → decode (in_string acc) (encode_text s ++ rest)
      ≡ WriteEvent.string (acc ++ s) ∷ decode ready rest
decode-string acc [] rest = ap (λ t. WriteEvent.string t ∷ decode ready rest) (sym (append-nil acc))
decode-string acc (c ∷ s) rest =
    decode-string (acc ++ (c ∷ [])) s rest
    ∙ ap (λ t. WriteEvent.string t ∷ decode ready rest) (append_assoc acc (c ∷ []) s)

decode-big :
    (acc s rest : Bytes)
    → decode (in_big acc) (encode_text s ++ rest)
      ≡ WriteEvent.big_int (acc ++ s) ∷ decode ready rest
decode-big acc [] rest = ap (λ t. WriteEvent.big_int t ∷ decode ready rest) (sym (append-nil acc))
decode-big acc (c ∷ s) rest =
    decode-big (acc ++ (c ∷ [])) s rest
    ∙ ap (λ t. WriteEvent.big_int t ∷ decode ready rest) (append_assoc acc (c ∷ []) s)

decode-encode :
    (e : WriteEvent) (rest : Bytes) → decode ready (encode e ++ rest) ≡ e ∷ decode ready rest
decode-encode WriteEvent.null rest = refl
decode-encode WriteEvent.start_object rest = refl
decode-encode WriteEvent.end_object rest = refl
decode-encode WriteEvent.start_array rest = refl
decode-encode WriteEvent.end_array rest = refl
decode-encode (WriteEvent.bool true) rest = refl
decode-encode (WriteEvent.bool false) rest = refl
decode-encode (WriteEvent.int64 (pos n)) rest = refl
decode-encode (WriteEvent.int64 (negsuc n)) rest = refl
decode-encode (WriteEvent.double d) rest = refl
decode-encode (WriteEvent.string s) rest = decode-string [] s rest
decode-encode (WriteEvent.big_int s) rest = decode-big [] s rest

pub decode-encode_all : (es : List WriteEvent) → decode ready (encode_all es) ≡ es
decode-encode_all [] = refl
decode-encode_all (e ∷ es) =
    decode-encode e (encode_all es) ∙ ap (λ t. e ∷ t) (decode-encode_all es)

-- Sixteen bytes that depend on the first byte of the text.
abbrev digest : Bytes → Bytes
digest s =
    1
    ∷ (2
        ∷ (3
            ∷ (4
                ∷ (5
                    ∷ (6
                        ∷ (7 ∷ (8 ∷ (9 ∷ (10 ∷ (11 ∷ (12 ∷ (13 ∷ (14 ∷ (15 ∷ (16 ∷ [])))))))))))))))

abbrev pub reread_text : Externals
reread_text = record {
  generate_int = decimal_ℤ;
  md5 = digest;
  render = encode_all;
  render_pretty = encode_all;
  scan = λ s. ([], none);
  double_text = λ d. [];
  strtod = λ s. none;
}

abbrev pub libraries : Externals
libraries = record reread_text { scan = λ s. (reread_all reread_text (decode ready s), none) }

-- A reader's report depends on the libraries in the text of a double alone.
reread-same :
    (x : Externals)
    → ((d : ℕ) → x.double_text d ≡ [])
    → (e : WriteEvent) → reread reread_text e ≡ reread x e
unfolding reread
reread-same x h WriteEvent.null = refl
reread-same x h WriteEvent.start_object = refl
reread-same x h WriteEvent.end_object = refl
reread-same x h WriteEvent.start_array = refl
reread-same x h WriteEvent.end_array = refl
reread-same x h (WriteEvent.bool b) = refl
reread-same x h (WriteEvent.int64 i) = refl
reread-same x h (WriteEvent.double d) = rw (h d) refl
reread-same x h (WriteEvent.string s) = refl
reread-same x h (WriteEvent.big_int s) = refl

pub reread_all-same :
    (x : Externals)
    → ((d : ℕ) → x.double_text d ≡ [])
    → (es : List WriteEvent) → reread_all reread_text es ≡ reread_all x es
unfolding reread_all
reread_all-same x h [] = refl
reread_all-same x h (e ∷ es) = ap₂ (λ a b. a ∷ b) (reread-same x h e) (reread_all-same x h es)

pub documented : IsDocumented libraries
documented = record {
  generates_decimal = λ n h. unfold decimal_ℤ in refl;
  md5_length = λ s. refl;
  md5_bytes = λ s. ground arith;
  scans_rendered = λ v p r.
      ap (λ t. (reread_all reread_text t, none)) (decode-encode_all (print v))
      ∙ ap (λ t. (t, none)) (reread_all-same libraries (λ d. refl) (print v));
}
