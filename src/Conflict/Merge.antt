-- ===== src/Conflict/Merge.antt =====
-- resolver::merge (libsofadb/conflict.cpp) against its specification.
use sofa_db.Prelude.{
  ℕ, ◌≡◌, ◌<◌, ◌^◌, refl, ◌∙◌, inl, inr, true, false, List, [], ◌∷◌, ◌++◌, ◌==◌, if◌then◌else◌,
  arith, some, Bool-cases,
}
use sofa_db.Text.{Bytes}
use sofa_db.Failure.{ok, fail, undefined}
use sofa_db.Revision.{Revision, make_revision, is_empty}
use sofa_db.Revlog.View.{Entry, LogView, last_entry, represent, text_items}
use sofa_db.Revlog.Refines.{
  push_back-text_items, add_rev_info-represent, put_conflicts-represent, get_conflicts-represent,
  top_rev_id-represent,
}
use sofa_db.Conflict.{
  member, wins, visit, add_conflicts, seen, push_through, push_unless, keep_current,
  replace_current, merge, is_left_rev_winning,
}
use sofa_db.Conflict.Spec.{adjoin, adjoin_all, entry_of, merge_view, winner, member-append}
use sofa_db.Externals.{Externals}

visit-text_items : (l : List Bytes) → visit (text_items l) ≡ ok l
unfolding visit text_items
visit-text_items [] = refl
visit-text_items (s ∷ l) = rw (visit-text_items l)

-- The set `visited` holds the texts of the list.
abbrev pub SameMembers : List Bytes → List Bytes → Type 0
SameMembers visited l = (t : Bytes) → member t visited ≡ member t l

record Added (news conflicts visited : List Bytes) : Type 0 where
  visited' : List Bytes
  runs :
      add_conflicts (text_items news) (text_items conflicts) visited
      ≡ ok (text_items (adjoin_all news conflicts), visited')
  same : SameMembers visited' (adjoin_all news conflicts)

add_conflicts-text_items :
    (news conflicts visited : List Bytes)
    → SameMembers visited conflicts
    → Added news conflicts visited
unfolding add_conflicts text_items adjoin_all
add_conflicts-text_items [] conflicts visited same = record {
  visited' = visited;
  runs = refl;
  same = same;
}
add_conflicts-text_items (s ∷ news) conflicts visited same =
    elim (Bool-cases (member s conflicts)) [
      | inl old ↦
          let rest = add_conflicts-text_items news conflicts visited same in
          record {
            visited' = rest.visited';
            runs = rw (same s ∙ old, old) rest.runs;
            same = rw old rest.same;
          }
      | inr new ↦
          let grown : SameMembers (s ∷ visited) (conflicts ++ (s ∷ [])) =
            λ t. unfold member in ground (arith, same t, member-append t s conflicts) in
          let rest = add_conflicts-text_items news (conflicts ++ (s ∷ [])) (s ∷ visited) grown in
          record {
            visited' = rest.visited';
            runs = rw (same s ∙ new, new, push_back-text_items conflicts s) rest.runs;
            same = rw new rest.same;
          }
    ]

seen-alive : (s : Bytes) (visited : List Bytes) → seen true s visited ≡ ok (member s visited)
unfolding seen member
seen-alive s [] = refl
seen-alive s (t ∷ l) = refl

push_unless-text_items :
    (s : Bytes) (visited l : List Bytes)
    → SameMembers visited l
    → push_unless true s visited (text_items l) ≡ ok (text_items (adjoin s l))
unfolding push_unless push_through adjoin
push_unless-text_items s visited l same =
    rw (seen-alive s visited) (ground (arith, same s, push_back-text_items l s))

keep_current-represent :
    (cur new : Revision) (visited l : List Bytes) (v : LogView)
    → SameMembers visited l
    → member cur.stringed l ≡ false
    → keep_current cur new (text_items l) visited (represent (record v { conflicts = l }))
      ≡ ok (represent (record v { conflicts = adjoin new.stringed l }))
unfolding keep_current
keep_current-represent cur new visited l v same h =
    rw
      (
        seen-alive cur.stringed visited,
        same cur.stringed,
        h,
        push_unless-text_items new.stringed visited l same,
      )
      (put_conflicts-represent (adjoin new.stringed l) (record v { conflicts = l }))

replace_current-represent :
    (room : ℕ) (cur new : Revision) (visited l : List Bytes) (v : LogView)
    → SameMembers visited l
    → member new.stringed l ≡ false
    → 0 < room
    → replace_current room cur new (text_items l) visited (represent (record v { conflicts = l }))
      ≡ ok (
          represent (record {
            conflicts = adjoin cur.stringed l;
            entries = v.entries ++ (entry_of new ∷ []);
          }))
unfolding replace_current
replace_current-represent room cur new visited l v same h r =
    let some_room : (room == 0) ≡ false = ground arith in
    rw
      (
        add_rev_info-represent (entry_of new) (record v { conflicts = l }),
        some_room,
        seen-alive new.stringed visited,
        same new.stringed,
        h,
        push_unless-text_items cur.stringed visited l same,
      )
      (put_conflicts-represent (adjoin cur.stringed l)
        (record { conflicts = l; entries = v.entries ++ (entry_of new ∷ []) }))

-- A reference that is not alive is read, if any text was visited, or written through.
pub replace_current-no_room :
    (cur new : Revision) (visited l : List Bytes) (v : LogView)
    → replace_current 0 cur new (text_items l) visited (represent (record v { conflicts = l }))
      ≡ fail undefined
unfolding replace_current seen push_unless push_through
replace_current-no_room cur new [] l v =
    rw (add_rev_info-represent (entry_of new) (record v { conflicts = l })) refl
replace_current-no_room cur new (t ∷ visited) l v =
    rw (add_rev_info-represent (entry_of new) (record v { conflicts = l })) refl

-- A log that can be merged into, with the revision at its top.
pub record IsCurrent (x : Externals) (v : LogView) (cur : Revision) : Type 0 where
  pub last : Entry
  pub at_top : last_entry v.entries ≡ some last
  pub fits : last.rev.num < 2 ^ 32
  pub top : cur ≡ make_revision x last.rev.num last.rev.uniq
  pub filled : is_empty cur ≡ false

module _ (x : Externals) (room : ℕ) (cur new : Revision) (news : List Bytes) (v : LogView) where
  abbrev pub all_conflicts : List Bytes
  all_conflicts = adjoin_all news v.conflicts

  -- Once the conflicts are joined, one branch or the other is left.
  pub merge_branches :
      IsCurrent x v cur
      → is_empty new ≡ false
      → (visited : List Bytes) × SameMembers visited all_conflicts
        × (merge x room new (text_items news) (represent v) ≡ (
            if wins cur new
            then keep_current cur new
                (text_items all_conflicts)
                visited
                (represent (record v { conflicts = all_conflicts }))
            else replace_current room cur new
                (text_items all_conflicts)
                visited
                (represent (record v { conflicts = all_conflicts }))))
  unfolding merge is_left_rev_winning
  merge_branches c n =
      let added = add_conflicts-text_items news v.conflicts v.conflicts (λ t. refl) in
      (
        added.visited',
        added.same,
        rw (
          top_rev_id-represent x v c.last c.at_top c.fits,
          ← c.top,
          get_conflicts-represent v,
          visit-text_items v.conflicts,
          added.runs,
          put_conflicts-represent all_conflicts v,
          c.filled,
          n,
        ),
      )

  -- Merging a revision and its conflicts into a log gives the log of the specification: if
  -- neither the revision nor the top is empty, the winner of the two is no conflict already, and
  -- the log's vector has room for an entry.
  pub merge-represent :
      IsCurrent x v cur
      → is_empty new ≡ false
      → member (winner cur new).stringed all_conflicts ≡ false
      → 0 < room
      → merge x room new (text_items news) (represent v)
        ≡ ok (represent (merge_view cur new news v))
  unfolding merge_view winner
  merge-represent c n w r =
      let (visited, same, runs) = merge_branches c n in
      runs ∙ elim (Bool-cases (wins cur new)) [
        | inl keep ↦
            rw keep (keep_current-represent cur new visited all_conflicts v same (rw keep at w))
        | inr replace ↦ rw replace (
            replace_current-represent room cur new visited all_conflicts v same (rw replace at w) r)
      ]
