-- ===== src/Revlog/View.antt =====
-- What a revision log says: the texts of the conflicting revisions, and the revisions that the
-- document has had.
use sofa_db.Prelude.{Bool, List, [], ◌∷◌, ◌++◌, Option, none, some}
use sofa_db.Text.{Bytes}
use sofa_db.Json.Value.{JsonValue, Items, str, sublist, no_items, item}
use sofa_db.Revision.{Revision}
use sofa_db.Revlog.{quad}

pub record Entry : Type 0 where
  pub rev : Revision
  pub available : Bool
  pub is_deleted : Bool

pub record LogView : Type 0 where
  pub conflicts : List Bytes
  pub entries : List Entry

unfoldable pub text_items : List Bytes → Items
text_items [] = no_items
text_items (s ∷ l) = item (str s) (text_items l)

unfoldable pub entry_items : List Entry → Items
unfolding quad
entry_items [] = no_items
entry_items (e ∷ l) = item (quad e.rev e.available e.is_deleted) (entry_items l)

-- The value that holds a log: the conflicts, the deleted conflicts, of which there are none, and
-- the entries.
unfoldable pub represent : LogView → JsonValue
unfolding text_items entry_items
represent v =
    sublist
      (item (sublist (text_items v.conflicts)) (item (sublist no_items) (entry_items v.entries)))

-- The last entry.
unfoldable pub last_entry : List Entry → Option Entry
last_entry [] = none
last_entry (e ∷ []) = some e
last_entry (e ∷ (f ∷ l)) = last_entry (f ∷ l)

abbrev pub empty_log : LogView
empty_log = record { conflicts = []; entries = [] }

abbrev pub with_entry : Entry → LogView → LogView
with_entry e v = record v { entries = v.entries ++ (e ∷ []) }

abbrev pub with_conflict : Bytes → LogView → LogView
with_conflict s v = record v { conflicts = v.conflicts ++ (s ∷ []) }
