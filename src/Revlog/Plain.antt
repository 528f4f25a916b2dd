-- ===== src/Revlog/Plain.antt =====
-- The text of a revision log.
use sofa_db.Prelude.{false, ◌≡◌, ◌<◌, ◌^◌, refl, ap, ap₂, ◌∙◌, List, [], ◌∷◌, All, arith}
use sofa_db.Text.{Bytes}
use sofa_db.Failure.{ok}
use sofa_db.Json.Value.{sublist, item, no_items, str}
use sofa_db.Json.Plain.{ItemsPlain, settled, settled_items}
use sofa_db.Json.Text.{string_to_json, json_to_string}
use sofa_db.Json.Text.RoundTrip.{string_to_json-json_to_string}
use sofa_db.Externals.{Externals}
use sofa_db.Externals.Laws.{IsDocumented}
use sofa_db.Revlog.{quad}
use sofa_db.Revlog.View.{Entry, LogView, represent, text_items, entry_items}

-- The number of an entry is a uint32_t.
abbrev pub Fits : Entry → Type 0
Fits e = e.rev.num < 2 ^ 32

text_items-plain :
    (l : List Bytes) → ItemsPlain (text_items l) × (settled_items (text_items l) ≡ text_items l)
unfolding text_items settled
text_items-plain [] = (tt, refl)
text_items-plain (s ∷ l) = let (p, e) = text_items-plain l in ((tt, p), ap (item (str s)) e)

entry_items-plain :
    (l : List Entry)
    → All Fits l
    → ItemsPlain (entry_items l) × (settled_items (entry_items l) ≡ entry_items l)
unfolding entry_items settled
entry_items-plain [] h = (tt, refl)
entry_items-plain (e ∷ l) h =
    let (p, q) = entry_items-plain l h.1 in
    ((ground (arith, h.0), p), ap (item (quad e.rev e.available e.is_deleted)) q)

-- Reading the text of a log gives the log.
pub string_to_json-represent :
    (x : Externals)
    → IsDocumented x
    → (v : LogView) → All Fits v.entries
    → string_to_json x (json_to_string x (represent v) false) ≡ ok (represent v)
unfolding represent settled
string_to_json-represent x d v h =
    let (p, e) = text_items-plain v.conflicts in
    let (q, f) = entry_items-plain v.entries h in
    string_to_json-json_to_string x d (represent v) (p, (tt, q)) tt
    ∙ ap₂ (λ a b. ok (sublist (item (sublist a) (item (sublist no_items) b)))) e f
