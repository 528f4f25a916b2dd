-- ===== src/Conflict/Winning.antt =====
-- The order of is_left_rev_winning (libsofadb/conflict.cpp).
use sofa_db.Prelude.{◌≡◌, true, false, arith}
use sofa_db.Text.Order.{bytes_lt_asymm, bytes_lt_trans, bytes_lt_total, bytes_lt_irrefl}
use sofa_db.Failure.{ok}
use sofa_db.Revision.{Revision, is_empty}
use sofa_db.Conflict.{wins, is_left_rev_winning}

pub wins_irrefl : (r : Revision) → wins r r ≡ false
unfolding wins
wins_irrefl r = ground (arith, bytes_lt_irrefl r.uniq)

pub wins_asymm : (l r : Revision) → wins l r ≡ true → wins r l ≡ false
unfolding wins
wins_asymm l r h = ground (arith, bytes_lt_asymm l.uniq r.uniq)

wins_trans : (l m r : Revision) → wins l m ≡ true → wins m r ≡ true → wins l r ≡ true
unfolding wins
wins_trans l m r h k = ground (arith, bytes_lt_trans l.uniq m.uniq r.uniq)

pub wins_total :
    (l r : Revision) → wins l r ≡ false → wins r l ≡ false → (l.num ≡ r.num) × (l.uniq ≡ r.uniq)
unfolding wins
wins_total l r h k = ground (arith, bytes_lt_total l.uniq r.uniq)

-- Which of several revisions wins does not depend on who compares them, or in what order: no
-- revision wins against itself, of two that differ in the number or the unique part exactly one
-- wins, and winning is transitive.
pub is_left_rev_winning_lem :
    (l m r : Revision)
    → is_empty l ≡ false
    → is_empty m ≡ false
    → is_empty r ≡ false
    → (is_left_rev_winning l l ≡ ok false)
      × (is_left_rev_winning l r ≡ ok true → is_left_rev_winning r l ≡ ok false)
      × (is_left_rev_winning l r ≡ ok false
          → is_left_rev_winning r l ≡ ok false
          → (l.num ≡ r.num) × (l.uniq ≡ r.uniq))
      × (is_left_rev_winning l m ≡ ok true
          → is_left_rev_winning m r ≡ ok true
          → is_left_rev_winning l r ≡ ok true)
unfolding is_left_rev_winning
is_left_rev_winning_lem l m r hl hm hr = (
  ground (arith, wins_irrefl l),
  λ h. ground (arith, wins_asymm l r),
  λ h k. ground (arith, wins_total l r),
  λ h k. ground (arith, wins_trans l m r),
)
