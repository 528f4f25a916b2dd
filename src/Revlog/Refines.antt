-- ===== src/Revlog/Refines.antt =====
-- revlog_wrapper (libsofadb/database.h) on the value that holds a log.
use sofa_db.Prelude.{◌<◌, ◌^◌, ◌≡◌, refl, ap, List, [], ◌∷◌, ◌++◌, some, arith}
use sofa_db.Prelude.Int.{pos}
use sofa_db.Text.{Bytes}
use sofa_db.Failure.{ok}
use sofa_db.Json.Value.{JsonValue, nil, bool, int, str, sublist, no_items, item}
use sofa_db.Json.Containers.{push_back, back}
use sofa_db.Revision.{make_revision}
use sofa_db.Externals.{Externals}
use sofa_db.Revlog.{
  init_log, quad, add_rev_info, top_quad, top_rev_id, get_conflicts, put_conflicts, add_conflict,
}
use sofa_db.Revlog.View.{
  Entry, LogView, text_items, entry_items, represent, last_entry, empty_log, with_entry,
  with_conflict,
}

pub push_back-text_items :
    (l : List Bytes) (s : Bytes) → push_back (text_items l) (str s) ≡ text_items (l ++ (s ∷ []))
unfolding push_back text_items
push_back-text_items [] s = refl
push_back-text_items (t ∷ l) s = ap (item (str t)) (push_back-text_items l s)

push_back-entry_items :
    (l : List Entry) (e : Entry)
    → push_back (entry_items l) (quad e.rev e.available e.is_deleted) ≡ entry_items (l ++ (e ∷ []))
unfolding push_back entry_items
push_back-entry_items [] e = refl
push_back-entry_items (f ∷ l) e =
    ap (item (quad f.rev f.available f.is_deleted)) (push_back-entry_items l e)

back-entry_items :
    (l : List Entry) (e : Entry) (v : JsonValue)
    → last_entry l ≡ some e
    → back (item v (entry_items l)) ≡ ok (quad e.rev e.available e.is_deleted)
unfolding back entry_items last_entry
back-entry_items [] e v h = cc
back-entry_items (f ∷ []) e v h = ground arith
back-entry_items (f ∷ (g ∷ l)) e v h =
    back-entry_items (g ∷ l) e (quad f.rev f.available f.is_deleted) h

-- A new log is empty.
pub init_log-represent : init_log nil ≡ ok (represent empty_log)
unfolding init_log represent
init_log-represent = refl

-- Adding a revision to the value that holds a log gives the value that holds the log with the
-- entry behind the others.
pub add_rev_info-represent :
    (e : Entry) (v : LogView)
    → add_rev_info e.rev e.available e.is_deleted (represent v) ≡ ok (represent (with_entry e v))
unfolding add_rev_info represent push_back
add_rev_info-represent e v =
    ap (λ t. ok (sublist (item (sublist (text_items v.conflicts)) (item (sublist no_items) t))))
      (push_back-entry_items v.entries e)

-- Adding a conflict gives the value that holds the log with the text behind the other conflicts.
pub add_conflict-represent :
    (s : Bytes) (v : LogView) → add_conflict s (represent v) ≡ ok (represent (with_conflict s v))
unfolding add_conflict represent
add_conflict-represent s v =
    ap (λ t. ok (sublist (item (sublist t) (item (sublist no_items) (entry_items v.entries)))))
      (push_back-text_items v.conflicts s)

pub get_conflicts-represent :
    (v : LogView) → get_conflicts (represent v) ≡ ok (text_items v.conflicts)
unfolding get_conflicts represent
get_conflicts-represent v = refl

pub put_conflicts-represent :
    (l : List Bytes) (v : LogView)
    → put_conflicts (text_items l) (represent v) ≡ ok (represent (record v { conflicts = l }))
unfolding put_conflicts represent
put_conflicts-represent l v = refl

pub top_quad-represent :
    (v : LogView) (e : Entry)
    → last_entry v.entries ≡ some e
    → (top_quad (represent v)
        ≡ ok (
            item (int (pos e.rev.num)) (
              item (str e.rev.uniq) (item (bool e.available) (item (bool e.is_deleted) no_items)))))
unfolding top_quad represent back quad
top_quad-represent v e h = rw (back-entry_items v.entries e (sublist no_items) h, back)

-- The top of a log is the revision of its last entry, with its text made anew.
pub top_rev_id-represent :
    (x : Externals) (v : LogView) (e : Entry)
    → last_entry v.entries ≡ some e
    → e.rev.num < 2 ^ 32
    → top_rev_id x (represent v) ≡ ok (make_revision x e.rev.num e.rev.uniq)
unfolding top_rev_id
top_rev_id-represent x v e h b =
    rw (top_quad-represent v e h) (ap (λ n. ok (make_revision x n e.rev.uniq)) (omega arith))
