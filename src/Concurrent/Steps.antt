-- ===== src/Concurrent/Steps.antt =====
-- One step of a put, among others that are under way.
use sofa_db.Prelude.{◌≡◌, refl, inl, inr, Bool, true, false, not, some, All, arith}
use sofa_db.Text.{Bytes, contains}
use sofa_db.Failure.{ok}
use sofa_db.Json.Value.{JsonValue}
use sofa_db.Json.Text.{json_to_string}
use sofa_db.Revision.{Revision}
use sofa_db.Revlog.View.{LogView, last_entry, represent, empty_log, with_entry}
use sofa_db.Revlog.Plain.{Fits}
use sofa_db.Conflict.Spec.{entry_of, last_entry-append}
use sofa_db.Storage.{Storage, IsMap}
use sofa_db.Database.{Database, make_path}
use sofa_db.Database.Put.{extend_log}
use sofa_db.Database.Put.Effects.{
  assigned, assigned-filled, get_revlog-none, get_revlog-some, check_open,
}
use sofa_db.Database.Put.Logs.{
  first_log, is_top, mismatches-represent, extend_log-first, extend_log-next,
}
use sofa_db.Database.Put.Frame.{store_data-eq}
use sofa_db.Database.Get.AfterPut.{Fits-append, assigned-Fits, first_log-Fits}
use sofa_db.Externals.{Externals}
use sofa_db.Externals.Laws.{IsDocumented}
use sofa_db.Concurrent.{
  Request, Phase, waiting, checked, formatted, returned, thrown, after_compare, after_read,
  after_format, after_write, read_log, format_log, write_body, after_store, write_log, proceed,
}
use sofa_db.Concurrent.Sound.{
  IsFair, HasBody, IsReadable, PhaseSound, with_body, HasBody-log, HasBody-body, HasBody-assigned,
  IsReadable-body, IsReadable-log,
}

module _ (x : Externals) (d : IsDocumented x) (s : Storage) (m : IsMap s) (db : Database)
    (is_open : db.closed ≡ false) (unnulled : contains db.name 0 ≡ false) where
  -- What a step of a put keeps.
  pub record Kept (r : Request) (p : Phase) (st st' : s.State) : Type 0 where
    pub documents :
        (id : Bytes)
        → IsReadable x s m (make_path db id) st
        → IsReadable x s m (make_path db id) st'
    pub bodies :
        (id : Bytes) (rev : Revision)
        → HasBody x s m (make_path db id) rev st
        → HasBody x s m (make_path db id) rev st'
    pub thread : PhaseSound x s m (make_path db r.id) p st'

  still-Kept :
      {r : Request} {p : Phase} {st : s.State}
      → PhaseSound x s m (make_path db r.id) p st
      → Kept r p st st
  still-Kept sound = record { documents = λ id h. h; bodies = λ id rev h. h; thread = sound }

  module _ (r : Request) (fair : IsFair r) (st : s.State) where
    abbrev path : Bytes
    path = make_path db r.id

    after_compare-PhaseSound :
        (v : LogView) (matches : Bool)
        → All Fits v.entries
        → PhaseSound x s m path (after_compare x s db r true (represent v) (ok (not matches))) st
    unfolding after_compare
    after_compare-PhaseSound v true f = (v, (refl, (f, λ e. cc)))
    after_compare-PhaseSound v false f = tt

    read_log-PhaseSound : IsReadable x s m path st → PhaseSound x s m path (read_log x s db r st) st
    unfolding read_log after_read
    read_log-PhaseSound (inl absent) =
        rw
          (
            check_open x d s m db 0 r.id r.old r.content st is_open,
            get_revlog-none x d s m path st absent,
          )
          (unfold after_compare in (empty_log, (refl, (tt, λ e. refl))))
    read_log-PhaseSound (inr p) =
        rw
          (
            check_open x d s m db 0 r.id r.old r.content st is_open,
            get_revlog-some x d s m path p.view p.last st p.holds,
            mismatches-represent r.old p.view p.last p.holds.at_top,
          )
          (after_compare-PhaseSound p.view (is_top r.old p.last) p.holds.fits)

    abbrev rev : Revision
    rev = assigned x s m r.old r.content

    abbrev st' : s.State
    st' = with_body x s m db unnulled d r fair st

    -- The log that the put makes.
    extend_log-Fits :
        (has_prev : Bool) (v : LogView)
        → All Fits v.entries
        → (has_prev ≡ false → v ≡ empty_log)
        → (v' : LogView) × ((extend_log has_prev r.old rev (represent v) ≡ ok (represent v'))
            × (All Fits v'.entries × (last_entry v'.entries ≡ some (entry_of rev))))
    extend_log-Fits true v f e = (
      with_entry (entry_of rev) v,
      (
        extend_log-next r.old rev v,
        (
          Fits-append v.entries (entry_of rev) f (assigned-Fits x d s m r.old r.content st path),
          last_entry-append v.entries (entry_of rev),
        ),
      ),
    )
    extend_log-Fits false v f e = (
      first_log r.old rev,
      (
        rw (e refl) (extend_log-first r.old rev),
        first_log-Fits x d s m db 0 r.id r.old r.content st (let small = fair.small in omega arith),
      ),
    )

    format_log-PhaseSound :
        (has_prev : Bool) (log : JsonValue)
        → PhaseSound x s m path (checked has_prev log) st
        → PhaseSound x s m path (format_log x s db r has_prev log rev) st'
    unfolding format_log after_format
    format_log-PhaseSound has_prev log (v, (e, (f, g))) =
        let (v', (h, (f', t))) = extend_log-Fits has_prev v f g in
        rw (assigned-filled x s m r.old r.content (let small = fair.small in omega arith), e, h)
          (
            v',
            (
              refl,
              (
                f',
                (
                  t,
                  (
                    assigned-Fits x d s m r.old r.content st path,
                    HasBody-assigned x s m db unnulled d r fair st,
                  ),
                ),
              ),
            ),
          )

    write_body-Kept :
        (has_prev : Bool) (log : JsonValue)
        → PhaseSound x s m path (checked has_prev log) st
        → Kept r (write_body x s db r has_prev log st).0 st (write_body x s db r has_prev log st).1
    unfolding write_body after_write
    write_body-Kept has_prev log h = rw (store_data-eq x s m path r.old r.content st) (record {
      documents = IsReadable-body x s m db unnulled d r fair st;
      bodies = λ id. HasBody-body x s m db unnulled d r fair st (make_path db id);
      thread = format_log-PhaseSound has_prev log h;
    })

    write_log-Kept :
        (made : Revision) (log : JsonValue)
        → PhaseSound x s m path (formatted made log) st
        → Kept r (write_log x s db r made log st).0 st (write_log x s db r made log st).1
    unfolding write_log after_store
    write_log-Kept made log (v, (e, (f, (t, (g, b))))) =
        rw (e, m.puts path (json_to_string x (represent v) false) st)
          (record {
            documents = λ id. IsReadable-log x s m db unnulled id r.id made v st f t g b;
            bodies = λ id rev'.
                HasBody-log x s m db unnulled id r.id rev' (json_to_string x (represent v) false)
                  st;
            thread = tt;
          })

    -- A step of a put keeps every document readable, and every body.
    pub proceed-Kept :
        (p : Phase)
        → IsReadable x s m path st
        → PhaseSound x s m path p st
        → Kept r (proceed x s db r p st).0 st (proceed x s db r p st).1
    unfolding proceed
    proceed-Kept waiting readable sound = still-Kept (read_log-PhaseSound readable)
    proceed-Kept (checked has_prev log) readable sound = write_body-Kept has_prev log sound
    proceed-Kept (formatted made log) readable sound = write_log-Kept made log sound
    proceed-Kept (returned res) readable sound = still-Kept tt
    proceed-Kept (thrown failure) readable sound = absurd sound
