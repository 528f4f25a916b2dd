-- ===== src/Conflict/Sound.antt =====
-- What resolver::merge (libsofadb/conflict.cpp) leaves of a log.
use sofa_db.Prelude.{
  ℕ, ◌≡◌, ◌<◌, ◌^◌, ◌≢◌, ap, ◌∙◌, inl, inr, false, ◌||◌, List, [], ◌∷◌, ◌++◌, arith, Bool-cases,
}
use sofa_db.Text.{Bytes, bytes_eq}
use sofa_db.Text.Order.{bytes_eq_iff}
use sofa_db.Failure.{ok, fail, undefined}
use sofa_db.Json.Value.{no_items}
use sofa_db.Revision.{Revision, make_revision, is_empty}
use sofa_db.Revlog.View.{LogView, represent, text_items}
use sofa_db.Conflict.{member, wins, merge}
use sofa_db.Conflict.Spec.{
  adjoin, adjoin_all, entry_of, merge_view, winner, loser, member-adjoin, member-adjoin_all,
  Distinct, adjoin-Distinct, adjoin_all-Distinct, last_entry-append,
}
use sofa_db.Externals.{Externals}
use sofa_db.Conflict.Winning.{wins_irrefl}
use sofa_db.Conflict.Merge.{
  IsCurrent, merge-represent, merge_branches, all_conflicts, replace_current-no_room,
}

-- The conflicts of a merged log.
module _ (cur new : Revision) (news : List Bytes) (v : LogView) where
  pub member-merge_view :
      (t : Bytes)
      → member t (merge_view cur new news v).conflicts
        ≡ ((member t v.conflicts || member t news) || bytes_eq (loser cur new).stringed t)
  unfolding merge_view loser
  member-merge_view t = ground (
    arith,
    member-adjoin t new.stringed (adjoin_all news v.conflicts),
    member-adjoin t cur.stringed (adjoin_all news v.conflicts),
    member-adjoin_all t news v.conflicts,
  )

  Distinct-merge_view : Distinct v.conflicts → Distinct (merge_view cur new news v).conflicts
  unfolding merge_view
  Distinct-merge_view d =
      let all = adjoin_all-Distinct news v.conflicts d in
      ground (
        arith,
        adjoin-Distinct new.stringed (adjoin_all news v.conflicts) all,
        adjoin-Distinct cur.stringed (adjoin_all news v.conflicts) all,
      )

module _ (x : Externals) (cur new : Revision) (news : List Bytes) (v : LogView) where
  IsCurrent-merge_view :
      IsCurrent x v cur
      → is_empty new ≡ false
      → new.num < 2 ^ 32
      → new ≡ make_revision x new.num new.uniq
      → IsCurrent x (merge_view cur new news v) (winner cur new)
  unfolding merge_view winner
  IsCurrent-merge_view c n b e = elim (Bool-cases (wins cur new)) [
    | inl keep ↦ rw keep c'
    | inr replace ↦ rw replace (fresh replace)
  ]
    where
      c' :
          IsCurrent x
            (record v { conflicts = adjoin new.stringed (adjoin_all news v.conflicts) })
            cur
      c' = record {
        last = c.last;
        at_top = c.at_top;
        fits = c.fits;
        top = c.top;
        filled = c.filled;
      }

      fresh :
          wins cur new ≡ false
          → IsCurrent x
              (record {
                conflicts = adjoin cur.stringed (adjoin_all news v.conflicts);
                entries = v.entries ++ (entry_of new ∷ []);
              })
              new
      fresh r = record {
        last = entry_of new;
        at_top = last_entry-append v.entries (entry_of new);
        fits = b;
        top = e;
        filled = n;
      }

-- A log is sound if no conflict stands twice and its top is no conflict.
pub record IsSound (x : Externals) (v : LogView) (cur : Revision) : Type 0 where
  pub current : IsCurrent x v cur
  pub distinct : Distinct v.conflicts
  pub top_free : member cur.stringed v.conflicts ≡ false

-- Merging a new revision into a sound log succeeds, with room for an entry in the log's vector,
-- and gives a sound log: the revision that wins is at the top, and the conflicts are those that
-- there were, those that came along, and the text of the revision that lost. It is supposed that
-- the new revision is not empty, that its number fits a uint32_t, that its text is that of its
-- number and part and not the top's, and that the winner is not among the conflicts on either
-- side.
pub merge_lem :
    (x : Externals) (room : ℕ) (cur new : Revision) (news : List Bytes) (v : LogView)
    → IsSound x v cur
    → is_empty new ≡ false
    → new.num < 2 ^ 32
    → new ≡ make_revision x new.num new.uniq
    → new.stringed ≢ cur.stringed
    → (member (winner cur new).stringed v.conflicts || member (winner cur new).stringed news)
      ≡ false
    → 0 < room
    → (v' : LogView) × (merge x room new (text_items news) (represent v) ≡ ok (represent v'))
      × IsSound x v' (winner cur new)
      × ((t : Bytes)
          → member t v'.conflicts
            ≡ ((member t v.conflicts || member t news) || bytes_eq (loser cur new).stringed t))
merge_lem x room cur new news v s n b e ne w r =
    let free = member-adjoin_all (winner cur new).stringed news v.conflicts ∙ w in
    (
      merge_view cur new news v,
      merge-represent x room cur new news v s.current n free r,
      record {
        current = IsCurrent-merge_view x cur new news v s.current n b e;
        distinct = Distinct-merge_view cur new news v s.distinct;
        top_free =
            member-merge_view cur new news v (winner cur new).stringed
            ∙ rw w (
                unfold winner loser in
                ground (
                  arith,
                  bytes_eq_iff new.stringed cur.stringed,
                  bytes_eq_iff cur.stringed new.stringed,
                ));
      },
      member-merge_view cur new news v,
    )

self_winner :
    (cur : Revision) (v : LogView)
    → member cur.stringed v.conflicts ≡ false
    → member (winner cur cur).stringed (adjoin_all [] v.conflicts) ≡ false
unfolding winner adjoin_all
self_winner cur v h = rw (wins_irrefl cur) h

self_view :
    (cur : Revision) (v : LogView)
    → member cur.stringed v.conflicts ≡ false
    → merge_view cur cur [] v ≡ record {
      conflicts = v.conflicts ++ (cur.stringed ∷ []);
      entries = v.entries ++ (entry_of cur ∷ []);
    }
unfolding merge_view adjoin_all
self_view cur v h = rw (wins_irrefl cur, h)

-- Where the log's vector has room for an entry, merging the top revision of a sound log into it,
-- with no conflicts, enters the revision once more and makes its own text a conflict, so that
-- the log is no longer sound.
pub merge_self :
    (x : Externals) (room : ℕ) (cur : Revision) (v : LogView)
    → IsSound x v cur
    → 0 < room
    → merge x room cur no_items (represent v)
      ≡ ok (
          represent (record {
            conflicts = v.conflicts ++ (cur.stringed ∷ []);
            entries = v.entries ++ (entry_of cur ∷ []);
          }))
unfolding text_items
merge_self x room cur v s r =
    merge-represent x room cur cur [] v s.current s.current.filled (self_winner cur v s.top_free) r
    ∙ ap (λ t. ok (represent t)) (self_view cur v s.top_free)

-- Where the new revision wins and the log's vector has no room for one more entry, merge is
-- undefined, whatever the conflicts are: a reference to the storage that was replaced is read in
-- a search, or written through in the push of the loser. Neither the new revision nor the one at
-- the top of the log is empty.
pub merge-no_room :
    (x : Externals) (cur new : Revision) (news : List Bytes) (v : LogView)
    → IsCurrent x v cur
    → is_empty new ≡ false
    → wins cur new ≡ false
    → merge x 0 new (text_items news) (represent v) ≡ fail undefined
merge-no_room x cur new news v c n l =
    let (visited, same, runs) = merge_branches x 0 cur new news v c n in
    runs ∙ rw l (replace_current-no_room cur new visited (all_conflicts x 0 cur new news v) v)
