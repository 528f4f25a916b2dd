-- ===== src/Database/Put/Logs.antt =====
-- What put reads from a log and enters in it.
use sofa_db.Prelude.{
  ◌≡◌, inl, inr, Bool, true, false, not, ◌&&◌, [], ◌∷◌, some, arith, Bool-cases, ◌==◌,
  if◌then◌else◌,
}
use sofa_db.Text.{bytes_eq}
use sofa_db.Failure.{ok}
use sofa_db.Revision.{Revision, is_empty}
use sofa_db.Revlog.View.{Entry, LogView, last_entry, represent, empty_log, with_entry}
use sofa_db.Revlog.Refines.{add_rev_info-represent, top_quad-represent}
use sofa_db.Conflict.Spec.{entry_of}
use sofa_db.Database.Put.{mismatches, extend_log}

-- The revision before the first that the database holds: its body is missing.
abbrev pub missing : Revision → Entry
missing r = record { rev = r; available = false; is_deleted = false }

-- The log of a document that is put for the first time.
unfoldable pub first_log : Revision → Revision → LogView
unfolding is_empty
first_log old rev =
    if is_empty old
    then record { conflicts = []; entries = entry_of rev ∷ [] }
    else record { conflicts = []; entries = missing old ∷ (entry_of rev ∷ []) }

-- Whether the revision that the caller names is the last one of the log.
unfoldable pub is_top : Revision → Entry → Bool
is_top old e = old.num == e.rev.num && bytes_eq old.uniq e.rev.uniq

pub mismatches-represent :
    (old : Revision) (v : LogView) (e : Entry)
    → last_entry v.entries ≡ some e
    → mismatches old (represent v) ≡ ok (not (is_top old e))
unfolding mismatches is_top
mismatches-represent old v e h = rw (top_quad-represent v e h) (ground arith)

pub extend_log-first :
    (old rev : Revision)
    → extend_log false old rev (represent empty_log) ≡ ok (represent (first_log old rev))
unfolding extend_log first_log
extend_log-first old rev = elim (Bool-cases (is_empty old)) [
  | inl e ↦ rw e (add_rev_info-represent (entry_of rev) empty_log)
  | inr n ↦
      rw (n, add_rev_info-represent (missing old) empty_log)
        (add_rev_info-represent (entry_of rev) (with_entry (missing old) empty_log))
]

pub extend_log-next :
    (old rev : Revision) (v : LogView)
    → extend_log true old rev (represent v) ≡ ok (represent (with_entry (entry_of rev) v))
unfolding extend_log
extend_log-next old rev v = elim (Bool-cases (is_empty old)) [
  | inl e ↦ rw e (add_rev_info-represent (entry_of rev) v)
  | inr n ↦ rw n (add_rev_info-represent (entry_of rev) v)
]
