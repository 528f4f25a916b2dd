-- ===== src/Tools/LoadTags/Loads.antt =====
-- What loadtags does with a dump that was written by json_to_string.
use sofa_db.Prelude.{
  ℕ, zero, suc, ◌<◌, ◌≡◌, refl, false, List, [], ◌∷◌, ◌++◌, Option, some, All, length,
  length-append, arith,
}
use sofa_db.Text.{Bytes}
use sofa_db.Failure.{Result, ok, fail, ◌>>=◌}
use sofa_db.Json.Value.{JsonValue}
use sofa_db.Json.Plain.{IsPlain, IsRooted, settled}
use sofa_db.Json.Text.{json_to_string}
use sofa_db.Json.Input.{StreamReader, IsStreamReader, IsAtText, next_value, is_space}
use sofa_db.Streams.Input.{IStream, get_char}
use sofa_db.Storage.{Storage}
use sofa_db.Database.{Database}
use sofa_db.Externals.{Externals}
use sofa_db.Tools.LoadTags.{put_document, load_document, after_char, after_put, load_all, load_dump}

-- A value that its text gives back.
abbrev pub IsDumpable : JsonValue → Type 0
IsDumpable v = IsPlain v × IsRooted v

-- The dump of a value and of those that follow it, behind the bracket that opens the array; what
-- follows the array is not read.
unfoldable pub dump_from : Externals → JsonValue → List JsonValue → Bytes → Bytes
dump_from x v [] after = json_to_string x v false ++ (b']' ∷ after)
dump_from x v (w ∷ l) after = json_to_string x v false ++ (b',' ∷ dump_from x w l after)

pub length-dump_from :
    (x : Externals) (v : JsonValue) (l : List JsonValue) (after : Bytes)
    → length l < length (dump_from x v l after)
unfolding dump_from
length-dump_from x v [] after =
    omega (arith, length-append (json_to_string x v false) (b']' ∷ after))
length-dump_from x v (w ∷ l) after = omega (
  arith,
  length-append (json_to_string x v false) (b',' ∷ dump_from x w l after),
  length-dump_from x w l after,
)

module _ (x : Externals) (t : StreamReader) (s : Storage) (db : Database) (room : ℕ) where
  -- The values of the dump, put in their order.
  unfoldable pub put_documents : List JsonValue → s.State → Result s.State
  put_documents [] st = ok st
  put_documents (v ∷ l) st = put_document x t s db room (settled v) st >>= put_documents l

module _ (x : Externals) (t : StreamReader) (law : IsStreamReader x t) (s : Storage) (db : Database)
    (room : ℕ) where
  load_one :
      (r : IStream) (v : JsonValue) (c : ℕ) (rest : Bytes) (st : s.State)
      → IsDumpable v
      → is_space c ≡ false
      → IsAtText r (json_to_string x v false ++ (c ∷ rest))
      → (r' : IStream) × (load_document x t s db room r st
          ≡ (put_document x t s db room (settled v) st >>= λ st'. ok (r', st')))
        × ((get_char r').0 ≡ some c)
        × IsAtText (get_char r').1 rest
  unfolding load_document
  load_one r v c rest st d n h =
      let (r', e, g, h') = next_value x t law r v c rest d.0 d.1 n h in (r', rw e refl, g, h')

  -- What the loop returns, for what the puts have given.
  abbrev pub finished : Result s.State → Option (Result (ℕ × s.State))
  finished puts = some (puts >>= λ st. ok (0, st))

  load_all-last :
      (fuel : ℕ) (r r' : IStream) (st : s.State) (put_first : Result s.State)
      → load_document x t s db room r st ≡ (put_first >>= λ st'. ok (r', st'))
      → (get_char r').0 ≡ some b']'
      → load_all x t s db room (suc fuel) r st
        ≡ finished (put_first >>= put_documents x t s db room [])
  unfolding load_all after_put after_char put_documents
  load_all-last fuel r r' st (fail failure) e g = rw e refl
  load_all-last fuel r r' st (ok st') e g = rw (e, g) refl

  load_all-more :
      (fuel : ℕ) (r r' : IStream) (st : s.State) (put_first : Result s.State) (l : List JsonValue)
      → load_document x t s db room r st ≡ (put_first >>= λ st'. ok (r', st'))
      → (get_char r').0 ≡ some b','
      → ((st' : s.State)
          → load_all x t s db room fuel (get_char r').1 st'
            ≡ finished (put_documents x t s db room l st'))
      → load_all x t s db room (suc fuel) r st
        ≡ finished (put_first >>= put_documents x t s db room l)
  unfolding load_all after_put after_char
  load_all-more fuel r r' st (fail failure) l e g more = rw e refl
  load_all-more fuel r r' st (ok st') l e g more = rw (e, g) (more st')

  load_all-dump :
      (fuel : ℕ) (r : IStream) (v : JsonValue) (l : List JsonValue) (after : Bytes) (st : s.State)
      → IsDumpable v
      → All IsDumpable l
      → length l < fuel
      → IsAtText r (dump_from x v l after)
      → load_all x t s db room fuel r st ≡ finished (put_documents x t s db room (v ∷ l) st)
  unfolding put_documents dump_from
  load_all-dump zero r v l after st d ds b h = absurd (omega arith)
  load_all-dump (suc fuel) r v [] after st d ds b h =
      let (r', e, g, h') = load_one r v b']' after st d refl h in
      load_all-last fuel r r' st (put_document x t s db room (settled v) st) e g
  load_all-dump (suc fuel) r v (w ∷ l) after st d ds b h =
      let (r', e, g, h') = load_one r v b',' (dump_from x w l after) st d refl h in
      load_all-more fuel r r' st (put_document x t s db room (settled v) st) (w ∷ l) e g
        (λ st'. load_all-dump fuel (get_char r').1 w l after st' ds.0 ds.1 (omega (arith, b)) h')

  -- The loop goes through the values of the dump, and put_document is called of each.
  pub load_dump-dump_from :
      (v : JsonValue) (l : List JsonValue) (after : Bytes) (st : s.State)
      → IsDumpable v
      → All IsDumpable l
      → load_dump x t s db room (b'[' ∷ dump_from x v l after) st
        ≡ some (put_documents x t s db room (v ∷ l) st >>= λ st'. ok (0, st'))
  unfolding load_dump get_char
  load_dump-dump_from v l after st d ds =
      load_all-dump (suc (suc (length (dump_from x v l after)))) _ v l after st d ds
        (omega (arith, length-dump_from x v l after))
        (record { ahead = refl; not_eof = refl; not_failed = refl })
