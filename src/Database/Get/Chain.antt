-- ===== src/Database/Get/Chain.antt =====
-- Puts of one document in a row, each on the revision that the one before has returned.
use sofa_db.Prelude.{
  ℕ, ◌+◌, ◌-◌, ◌^◌, ◌<◌, ◌≡◌, refl, true, false, List, [], ◌∷◌, length, length-append, arith,
}
use sofa_db.Text.{Bytes}
use sofa_db.Text.Order.{bytes_eq_refl}
use sofa_db.Failure.{Result, ok, ◌>>=◌}
use sofa_db.Json.Value.{JsonValue}
use sofa_db.Revision.{Revision, make_revision}
use sofa_db.Revlog.View.{LogView, with_entry}
use sofa_db.Conflict.Spec.{entry_of, last_entry-append}
use sofa_db.Storage.{Storage, IsMap}
use sofa_db.Database.{Database, make_path}
use sofa_db.Database.Put.{put, compute_revision}
use sofa_db.Database.Put.Logs.{is_top}
use sofa_db.Database.Put.Effects.{HoldsLog, assigned, stored, put-next}
use sofa_db.Database.Get.AfterPut.{HoldsLog-stored, Fits-append, assigned-Fits}
use sofa_db.Externals.{Externals}
use sofa_db.Externals.Laws.{IsDocumented}

is_top_refl : (r : Revision) → is_top r (entry_of r) ≡ true
unfolding is_top
is_top_refl r = ground (arith, bytes_eq_refl r.uniq)

module _ (x : Externals) (s : Storage) where
  -- The client puts each content on the revision that the put before it has returned.
  unfoldable pub put_all :
      Database → ℕ → Bytes → Revision → List JsonValue → s.State → Result (Revision × s.State)
  put_all db room id rev [] st = ok (rev, st)
  put_all db room id rev (content ∷ rest) st = put x s db room id rev content false st >>= λ done.
      put_all db room id done.0.assigned_rev rest done.1

module _ (x : Externals) (d : IsDocumented x) (s : Storage) (m : IsMap s) (db : Database) (room : ℕ)
    (id : Bytes) (is_open : db.closed ≡ false) where
  -- What a row of puts leaves: a log with an entry more for each, and the last revision at its top.
  pub record HasRun (v : LogView) (rev : Revision) (contents : List JsonValue) (st : s.State)
      : Type 0 where
    pub rev' : Revision
    pub log' : LogView
    pub st' : s.State
    pub runs : put_all x s db room id rev contents st ≡ ok (rev', st')
    pub holds : HoldsLog x s m (make_path db id) log' (entry_of rev') st'
    pub entered : length log'.entries ≡ length v.entries + length contents
    pub unconflicted : log'.conflicts ≡ v.conflicts

  assigned-num :
      (rev : Revision) (content : JsonValue)
      → rev.num < 2 ^ 32 - 1
      → (assigned x s m rev content).num ≡ rev.num + 1
  unfolding compute_revision make_revision
  assigned-num rev content h = omega arith

  -- Puts in a row, each on the revision that the one before has returned, all succeed: none is
  -- taken for a conflict, each enters one revision in the log, and the last one is at its top. The
  -- database is open, the storage does not fail, the log has the first put's revision at its top,
  -- and the numbers stay below 2 ^ 32 - 1.
  pub put_all-HasRun :
      (v : LogView) (rev : Revision) (contents : List JsonValue) (st : s.State)
      → HoldsLog x s m (make_path db id) v (entry_of rev) st
      → rev.num + length contents < 2 ^ 32 - 1
      → HasRun v rev contents st
  unfolding put_all
  put_all-HasRun v rev [] st h b = record {
    rev' = rev;
    log' = v;
    st' = st;
    runs = refl;
    holds = h;
    entered = omega arith;
    unconflicted = refl;
  }
  put_all-HasRun v rev (content ∷ rest) st h b =
      let next = assigned x s m rev content in
      let small : rev.num < 2 ^ 32 - 1 = omega arith in
      let v' = with_entry (entry_of next) v in
      let st' = stored x s m (make_path db id) rev content v' st in
      let held =
        HoldsLog-stored x d s m rev content st (make_path db id) v'
          (Fits-append v.entries (entry_of next) h.fits
            (assigned-Fits x d s m rev content st (make_path db id)))
          (last_entry-append v.entries (entry_of next)) in
      let tail =
        put_all-HasRun v' next rest st' held (omega (arith, assigned-num rev content small)) in
      record {
        rev' = tail.rev';
        log' = tail.log';
        st' = tail.st';
        runs =
            rw
              (put-next x d s m db room id rev content st is_open false v (entry_of rev) h small
                (is_top_refl rev))
              tail.runs;
        holds = tail.holds;
        entered = omega (arith, tail.entered, length-append v.entries (entry_of next ∷ []));
        unconflicted = tail.unconflicted;
      }
