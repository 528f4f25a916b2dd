-- ===== src/Externals.antt =====
-- What SofaDB takes from the libraries it is linked with: Boost.Karma, OpenSSL, RapidJSON (whose
-- copy is in libsofadb/rapidjson) and the C library's conversion of doubles. Their functions are
-- parameters; `Laws` states the documented behaviour that theorems rely on.
pub mod Laws
use sofa_db.Prelude.{ℕ, List, Option}
use sofa_db.Prelude.Int.{ℤ}
use sofa_db.Text.{Bytes}
use sofa_db.Json.Events.{WriteEvent, ReadEvent}

-- Reader::GetParseError and GetErrorOffset
pub record ParseError : Type 0 where
  pub message : Bytes
  pub offset : ℕ

pub record Externals : Type 0 where
  -- karma::generate(ptr, int_, in)
  pub generate_int : ℤ → Bytes
  -- MD5(data, size, res)
  pub md5 : Bytes → Bytes
  -- The text that a Writer, and a PrettyWriter with an indent of two spaces, puts out.
  pub render : List WriteEvent → Bytes
  pub render_pretty : List WriteEvent → Bytes
  -- The calls that Reader::Parse<0> makes of its handler, and the error it ends with, if any.
  pub scan : Bytes → List ReadEvent × Option ParseError
  -- snprintf("%.20g") of the writer, and sscanf("%lf") of the handler.
  pub double_text : ℕ → Bytes
  pub strtod : Bytes → Option ℕ
