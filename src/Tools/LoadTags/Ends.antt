-- ===== src/Tools/LoadTags/Ends.antt =====
-- How long loadtags runs.
use sofa_db.Prelude.{
  ℕ, zero, suc, ◌+◌, ◌-◌, ◌<◌, ◌≤◌, ◌≡◌, refl, sym, ap, ◌∙◌, inl, inr, ◌||◌, List, [], ◌∷◌, Option,
  none, some, length, get_elem?, Option-cases, Bool-cases, ◌==◌, arith,
}
use sofa_db.Text.{Bytes}
use sofa_db.Failure.{Result, ok, fail}
use sofa_db.Failure.Laws.{>>=-ok, ok-injective}
use sofa_db.Json.Value.{JsonValue}
use sofa_db.Json.Events.{ReadEvent}
use sofa_db.Json.Reading.{start, on_events}
use sofa_db.Json.Text.{parse_from_stream}
use sofa_db.Json.Input.{StreamReader, ReaderEnd, ended, starved, after_scan, json_from_stream}
use sofa_db.Streams.Input.{IStream, open_stream, get_char, sub_sequence}
use sofa_db.Storage.{Storage}
use sofa_db.Database.{Database}
use sofa_db.Externals.{Externals}
use sofa_db.Tools.LoadTags.{put_document, load_document, after_char, after_put, load_all, load_dump}

-- A stream that is at the same place of the same text, or further on.
abbrev pub IsBehind : IStream → IStream → Type 0
IsBehind r r' = (r'.content ≡ r.content) × (r.position ≤ r'.position)

get_elem?-length : {A : Type 0} (l : List A) (n : ℕ) (a : A) → get_elem? l n ≡ some a → n < length l
get_elem?-length [] n a h = absurd (cc h)
get_elem?-length (b ∷ l) zero a h = omega arith
get_elem?-length (b ∷ l) (suc n) a h = omega (arith, get_elem?-length l n a h)

-- A character that was read stood before the end, and the stream is behind it.
get_char-some :
    (r : IStream) (c : ℕ)
    → (get_char r).0 ≡ some c
    → ((get_char r).1.content ≡ r.content)
      × ((get_char r).1.position ≡ r.position + 1)
      × (r.position < length r.content)
unfolding get_char
get_char-some r c h = elim (Bool-cases (r.eofbit || r.failbit)) [
  | inl off ↦ absurd (ground (arith, off, h))
  | inr good ↦ elim (Option-cases (get_elem? r.content r.position)) [
    | inl gone ↦ absurd (ground (arith, good, gone, h))
    | inr (a, found) ↦ ground (arith, good, found, get_elem?-length r.content r.position a found)
  ]
]

module _ (x : Externals) (t : StreamReader) where
  after_scan-IsBehind :
      (r : IStream) (scanned : List ReadEvent × ReaderEnd) (done : JsonValue × IStream)
      → after_scan x t r scanned ≡ ok done
      → IsBehind r done.1
  unfolding after_scan
  after_scan-IsBehind r (events, ended n error) done h =
      let (v, e, _) =
        >>=-ok _
          (parse_from_stream x (sub_sequence (record r { position = r.position + n }))
            (events, error))
          h in
      let same = ap (λ (d : JsonValue × IStream). d.1) (ok-injective e) in
      (
        sym (ap (λ (u : IStream). u.content) same),
        omega (arith, ap (λ (u : IStream). u.position) same),
      )
  after_scan-IsBehind r (events, starved) done h =
      let (v, e, _) = >>=-ok _ (on_events x.strtod events start) h in absurd (cc e)

  module _ (s : Storage) (db : Database) (room : ℕ) where
    load_document-IsBehind :
        (r : IStream) (st : s.State) (done : IStream × s.State)
        → load_document x t s db room r st ≡ ok done
        → IsBehind r done.0
    unfolding load_document json_from_stream
    load_document-IsBehind r st done h =
        let (read, e, first) = >>=-ok _ (json_from_stream x t r) h in
        let (st', e', _) = >>=-ok _ (put_document x t s db room read.0 st) e in
        let same = ap (λ (d : IStream × s.State). d.0) (ok-injective e') in
        let (c, p) = after_scan-IsBehind r _ read first in
        (
          sym (ap (λ (u : IStream). u.content) same) ∙ c,
          omega (arith, ap (λ (u : IStream). u.position) same, p),
        )

    -- The loop has come to an end.
    abbrev HasEnded : Option (Result (ℕ × s.State)) → Type 0
    HasEnded out = (res : Result (ℕ × s.State)) × (out ≡ some res)

    after_char-HasEnded :
        (ch : Option ℕ) (st : s.State) (rest : Option (Result (ℕ × s.State)))
        → ((c : ℕ) → ch ≡ some c → HasEnded rest)
        → HasEnded (after_char x t s db room ch st rest)
    unfolding after_char
    after_char-HasEnded none st rest h = (ok (2, st), refl)
    after_char-HasEnded (some c) st rest h = elim (Bool-cases (c == b']')) [
      | inl closed ↦ (ok (0, st), rw closed refl)
      | inr other ↦ elim (Bool-cases (c == b',')) [
        | inl comma ↦ let (res, e) = h c refl in (res, rw (other, comma) e)
        | inr wrong ↦ (ok (2, st), rw (other, wrong) refl)
      ]
    ]

    after_put-HasEnded :
        (rest : IStream → s.State → Option (Result (ℕ × s.State)))
        (loaded : Result (IStream × s.State))
        → ((r : IStream) (st : s.State) (c : ℕ)
            → loaded ≡ ok (r, st)
            → (get_char r).0 ≡ some c
            → HasEnded (rest (get_char r).1 st))
        → HasEnded (after_put x t s db room rest loaded)
    unfolding after_put
    after_put-HasEnded rest (fail failure) h = (fail failure, refl)
    after_put-HasEnded rest (ok (r, st)) h =
        after_char-HasEnded (get_char r).0 st (rest (get_char r).1 st) (λ c e. h r st c refl e)

    load_all-HasEnded :
        (fuel : ℕ) (r : IStream) (st : s.State)
        → length r.content - r.position < fuel
        → HasEnded (load_all x t s db room fuel r st)
    unfolding load_all
    load_all-HasEnded zero r st b = absurd (omega arith)
    load_all-HasEnded (suc fuel) r st b =
        after_put-HasEnded (load_all x t s db room fuel) (load_document x t s db room r st)
          (λ r' st' c e g.
            let (same, ahead) = load_document-IsBehind r st (r', st') e in
            let (same', next, inside) = get_char-some r' c g in
            load_all-HasEnded fuel (get_char r').1 st'
              (omega (arith, b, ahead, next, inside, ap length same, ap length same')))

    -- loadtags ends, with a result or an exception, on every file, whatever the reader makes of
    -- it: each round reads a character at least.
    pub load_dump_ends :
        (dump : Bytes) (st : s.State)
        → (res : Result (ℕ × s.State)) × (load_dump x t s db room dump st ≡ some res)
    unfolding load_dump get_char
    load_dump_ends [] st = (ok (2, st), refl)
    load_dump_ends (c ∷ rest) st = elim (Bool-cases (c == b'[')) [
      | inl array ↦
          let (res, e) =
            load_all-HasEnded (suc (length (c ∷ rest))) (get_char (open_stream (c ∷ rest))).1 st
              (omega arith) in
          (res, rw array e)
      | inr other ↦ (ok (2, st), rw other refl)
    ]
