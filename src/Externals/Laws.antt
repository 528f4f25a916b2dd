-- ===== src/Externals/Laws.antt =====
-- The documented behaviour of the libraries.
use sofa_db.Prelude.{ℕ, ◌^◌, ◌<◌, ◌≡◌, List, [], ◌∷◌, none, All, length}
use sofa_db.Prelude.Int.{pos}
use sofa_db.Text.{Bytes, IsByte, decimal, decimal_ℤ}
use sofa_db.Json.Events.{WriteEvent, ReadEvent, print}
use sofa_db.Json.Value.{JsonValue}
use sofa_db.Json.Plain.{IsPlain, IsRooted}
use sofa_db.Externals.{Externals}

-- How a reader reports what a writer has been told.
unfoldable pub reread : Externals → WriteEvent → ReadEvent
reread x WriteEvent.null = ReadEvent.null
reread x (WriteEvent.bool b) = ReadEvent.bool b
reread x (WriteEvent.int64 i) = ReadEvent.big_num (decimal_ℤ i)
reread x (WriteEvent.double d) = ReadEvent.big_num (x.double_text d)
reread x (WriteEvent.string s) = ReadEvent.string s
reread x (WriteEvent.big_int s) = ReadEvent.big_num s
reread x WriteEvent.start_object = ReadEvent.start_object
reread x WriteEvent.end_object = ReadEvent.end_object
reread x WriteEvent.start_array = ReadEvent.start_array
reread x WriteEvent.end_array = ReadEvent.end_array

unfoldable pub reread_all : Externals → List WriteEvent → List ReadEvent
unfolding reread
reread_all x [] = []
reread_all x (e ∷ es) = reread x e ∷ reread_all x es

pub record IsDocumented (x : Externals) : Type 0 where
  -- Karma prints an int in decimal.
  pub generates_decimal : (n : ℕ) → n < 2 ^ 31 → x.generate_int (pos n) ≡ decimal n
  -- A digest is sixteen bytes.
  pub md5_length : (s : Bytes) → length (x.md5 s) ≡ 16
  pub md5_bytes : (s : Bytes) → All IsByte (x.md5 s)
  -- RapidJSON reads back what it writes, if the root is an object or an array.
  pub scans_rendered :
      (v : JsonValue)
      → IsPlain v
      → IsRooted v
      → x.scan (x.render (print v)) ≡ (reread_all x (print v), none)
