-- ===== src/Tests/Cells.antt =====
-- The theorems on json_value in memory, applied to small values.
use sofa_db.Prelude.{◌≡◌, ◌≢◌, true, List, [], ◌∷◌}
use sofa_db.Prelude.Int.{pos}
use sofa_db.Failure.{fail, undefined}
use sofa_db.Json.Value.{nil_d, int_d, string_d, str, bool, of_disc}
use sofa_db.Json.Cell.{int_kind, str_kind, get_payload}
use sofa_db.Json.Cell.Assign.{construct_disc}
use sofa_db.Json.Cell.Stands.{Stands}
use sofa_db.Json.Cell.Refines.{Agrees}
use sofa_db.Json.Cell.Changes.{
  Change, clearing, copying, moving, taking, setting, setting_moved, cell_of, cell_of_lem,
  changes_cell, changes_value, changes_lem,
}
use sofa_db.Json.Cell.Made.{construct_disc_lem}
use sofa_db.Tests.Data.{content}

-- A text is copied over a Boolean, replaced, cleared and made an int, and then taken for a text.
abbrev mixed_changes : List Change
mixed_changes =
    copying (str (b'a' ∷ []))
    ∷ (setting str_kind (b'b' ∷ [])
        ∷ (moving content ∷ (clearing ∷ (setting_moved int_kind (pos 7) ∷ (taking str_kind ∷ [])))))

changes_lem_example :
    Agrees
      (changes_cell mixed_changes (cell_of (bool true)))
      (changes_value mixed_changes (bool true))
changes_lem_example =
    changes_lem mixed_changes (cell_of (bool true)) (bool true) (cell_of_lem (bool true))

construct_disc_lem_example :
    (string_d ≢ int_d → Stands (construct_disc nil_d string_d) (of_disc 0 string_d))
    × (get_payload int_kind (construct_disc nil_d int_d) ≡ fail undefined)
construct_disc_lem_example = construct_disc_lem nil_d string_d 0
