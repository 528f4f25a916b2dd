-- ===== src/Concurrent/LostUpdate.antt =====
-- Two puts of one document that both read the log before either writes.
use sofa_db.Prelude.{
  ℕ, ◌-◌, ◌^◌, ◌<◌, ◌≡◌, ◌≢◌, refl, sym, ◌∙◌, ap, true, false, [], ◌∷◌, ◌++◌, some,
}
use sofa_db.Json.Text.{json_to_string}
use sofa_db.Revlog.View.{Entry, LogView, represent, with_entry}
use sofa_db.Conflict.Spec.{entry_of}
use sofa_db.Storage.{Storage, IsMap}
use sofa_db.Database.{Database, make_path}
use sofa_db.Database.Put.{body_of}
use sofa_db.Database.Put.Effects.{
  HoldsLog, assigned, assigned-filled, accepted, get_revlog-some, check_open,
}
use sofa_db.Database.Put.Logs.{is_top, mismatches-represent, extend_log-next}
use sofa_db.Database.Put.Frame.{store_data-eq}
use sofa_db.Database.Put.Keys.{lookup-stored_log}
use sofa_db.Externals.{Externals}
use sofa_db.Externals.Laws.{IsDocumented}
use sofa_db.Concurrent.{
  Request, Phase, waiting, checked, formatted, returned, after_compare, after_read, after_format,
  after_write, after_store, read_log, format_log, write_body, write_log, proceed, System, turn,
  take_turns,
}
use sofa_db.Concurrent.Turns.{turn-same, turn-other}

module _ (x : Externals) (d : IsDocumented x) (s : Storage) (m : IsMap s) (db : Database)
    (is_open : db.closed ≡ false) where
  -- The log that a put on top of another makes, and the storage after each of its writes.
  abbrev made : Request → LogView → LogView
  made r v = with_entry (entry_of (assigned x s m r.old r.content)) v

  abbrev pub bodied : Request → s.State → s.State
  bodied r st =
      m.store (make_path db r.id ++ (assigned x s m r.old r.content).stringed)
        (body_of x r.old false r.content) st

  abbrev pub logged : Request → LogView → s.State → s.State
  logged r v st = m.store (make_path db r.id) (json_to_string x (represent (made r v)) false) st

  module _ (r : Request) (v : LogView) (small : r.old.num < 2 ^ 32 - 1) (st : s.State) where
    proceed-waiting :
        (last : Entry)
        → HoldsLog x s m (make_path db r.id) v last st
        → is_top r.old last ≡ true
        → proceed x s db r waiting st ≡ (checked true (represent v), st)
    unfolding proceed read_log after_read
    proceed-waiting last h t =
        rw
          (
            check_open x d s m db 0 r.id r.old r.content st is_open,
            get_revlog-some x d s m (make_path db r.id) v last st h,
            mismatches-represent r.old v last h.at_top,
            t,
          )
          (unfold after_compare in refl)

    proceed-checked :
        proceed x s db r (checked true (represent v)) st
        ≡ (formatted (assigned x s m r.old r.content) (represent (made r v)), bodied r st)
    unfolding proceed write_body after_write format_log
    proceed-checked =
        rw
          (
            store_data-eq x s m (make_path db r.id) r.old r.content st,
            assigned-filled x s m r.old r.content small,
            extend_log-next r.old (assigned x s m r.old r.content) v,
          )
          (unfold after_format in refl)

    proceed-formatted :
        proceed x s db r (formatted (assigned x s m r.old r.content) (represent (made r v))) st
        ≡ (returned (accepted x s m r.old r.content (made r v)), logged r v st)
    unfolding proceed write_log
    proceed-formatted =
        rw (m.puts (make_path db r.id) (json_to_string x (represent (made r v)) false) st)
          (unfold after_store in refl)

  module _ (requests : ℕ → Request) (i j : ℕ) (apart : i ≢ j) where
    -- Where the two threads and the storage are.
    record IsAt (p q : Phase) (st : s.State) (sys : System s) : Type 0 where
      pub first : sys.phase i ≡ p
      pub second : sys.phase j ≡ q
      pub state : sys.state ≡ st

    first_turn :
        (p q p' : Phase) (st st' : s.State) (sys : System s)
        → proceed x s db (requests i) p st ≡ (p', st')
        → IsAt p q st sys
        → IsAt p' q st' (turn x s db requests i sys)
    first_turn p q p' st st' sys e h = record {
      first = turn-same x s db requests i sys ∙ rw (h.first, h.state, e) refl;
      second = turn-other x s db requests i sys j apart ∙ h.second;
      state = unfold turn in rw (h.first, h.state, e) refl;
    }

    second_turn :
        (p q q' : Phase) (st st' : s.State) (sys : System s)
        → proceed x s db (requests j) q st ≡ (q', st')
        → IsAt p q st sys
        → IsAt p q' st' (turn x s db requests j sys)
    second_turn p q q' st st' sys e h = record {
      first = turn-other x s db requests j sys i (λ c. apart (sym c)) ∙ h.first;
      second = turn-same x s db requests j sys ∙ rw (h.second, h.state, e) refl;
      state = unfold turn in rw (h.second, h.state, e) refl;
    }

    module _ (v : LogView) (last : Entry) (st : s.State) (same : (requests i).id ≡ (requests j).id)
        (small : (requests i).old.num < 2 ^ 32 - 1)
        (small' : (requests j).old.num < 2 ^ 32 - 1) where
      abbrev ahead : Request
      ahead = requests i

      abbrev behind : Request
      behind = requests j

      abbrev done : Request → Phase
      done r = returned (accepted x s m r.old r.content (made r v))

      race-IsAt :
          HoldsLog x s m (make_path db (requests j).id) v last st
          → is_top (requests i).old last ≡ true
          → is_top (requests j).old last ≡ true
          → IsAt
              (done (requests i))
              (done (requests j))
              (logged
                (requests j)
                v
                (bodied (requests j) (logged (requests i) v (bodied (requests i) st))))
              (take_turns x s db requests
                (i ∷ j ∷ i ∷ i ∷ j ∷ j ∷ [])
                (record { state = st; phase = λ k. waiting }))
      unfolding take_turns
      race-IsAt h t t' = second_turn _ _ _ _ _ _ (proceed-formatted behind v small' _) (
          second_turn _ _ _ _ _ _ (proceed-checked behind v small' _) (
            first_turn _ _ _ _ _ _ (proceed-formatted ahead v small _) (
              first_turn _ _ _ _ _ _ (proceed-checked ahead v small st) (
                second_turn _ _ _ _ _ _ (proceed-waiting behind v small' st last h t') (
                  first_turn waiting waiting _ st st _
                    (proceed-waiting ahead v small st last (rw same h) t)
                    (record { first = refl; second = refl; state = refl }))))))

      -- Two threads put one document, both naming the revision at the top of its log, and take
      -- turns in this order: the first reads the log, the second reads it, the first writes its
      -- body and its log, the second writes its body and its log; no other thread has a turn
      -- between. Both puts are accepted, with an assigned revision each, but the log that is
      -- left has one entry more, the second one's, and nothing of the first one's. The database
      -- is open, the storage does not fail, and the numbers of the old revisions are below 2 ^
      -- 32 - 1.
      pub take_turns-lost_update :
          HoldsLog x s m (make_path db (requests j).id) v last st
          → is_top (requests i).old last ≡ true
          → is_top (requests j).old last ≡ true
          → let after =
              take_turns x s db requests
                (i ∷ j ∷ i ∷ i ∷ j ∷ j ∷ [])
                (record { state = st; phase = λ k. waiting }) in
            (after.phase i ≡ done (requests i))
            × (after.phase j ≡ done (requests j))
            × (m.lookup (make_path db (requests j).id) after.state
                ≡ some (json_to_string x (represent (made (requests j) v)) false))
      take_turns-lost_update h t t' =
          let at = race-IsAt h t t' in
          (
            at.first,
            at.second,
            ap (m.lookup (make_path db (requests j).id)) at.state
                ∙ lookup-stored_log x s m behind.old behind.content (made behind v) _
                    (make_path db behind.id),
          )
