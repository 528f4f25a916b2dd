-- ===== src/Json/Reading/Rebuild.antt =====
-- What rapid_read_handler (libsofadb/native_json.cpp) makes of the events of a printed value.
use sofa_db.Prelude.{◌≡◌, refl, ap, sym, ◌∙◌, false, List, [], ◌∷◌, ◌++◌, append_assoc, append-nil}
use sofa_db.Text.{Bytes, bytes_eq}
use sofa_db.Failure.{Result, ok}
use sofa_db.Json.Value.{
  JsonValue, Items, Fields, nil, bool, int, double, str, big_int, submap, sublist, graft, no_items,
  item, no_fields, field,
}
use sofa_db.Json.Containers.{push_back, insert_field}
use sofa_db.Json.Containers.Laws.{IsSorted}
use sofa_db.Json.Bignum.Normal.{strtol-decimal}
use sofa_db.Json.Plain.{
  IsPlain, ItemsPlain, FieldsPlain, IsRooted, settled, settled_items, settled_fields,
}
use sofa_db.Json.Events.{WriteEvent, ReadEvent, print, print_items, print_fields}
use sofa_db.Json.Reading.{
  Handler, Place, at_root, Pointer, start, on_event, on_events, on_end, on_string, on_start_object,
  on_start_array,
}
use sofa_db.Json.Reading.Steps.{
  Slot, list_slot, map_slot, IsOpen, before, after, place_of, filled, advance-before,
  on_string-before, on_big_num-decimal, on_start_object-before, on_start_array-before,
  settle_in-filled, integer,
}
use sofa_db.Json.Reading.Order.{
  append_items, append_fields, append_items-nil, append_fields-nil, append_items-push_back,
  Precedes, find_field-AllBelow, append_fields-insert_field, Precedes-insert_field, Precedes-nil,
}
use sofa_db.Externals.{Externals}
use sofa_db.Externals.Laws.{reread, reread_all}

pub reread_all-append :
    (x : Externals) (es fs : List WriteEvent)
    → reread_all x (es ++ fs) ≡ reread_all x es ++ reread_all x fs
unfolding reread_all
reread_all-append x [] fs = refl
reread_all-append x (e ∷ es) fs = ap (λ t. reread x e ∷ t) (reread_all-append x es fs)

module _ (x : Externals) where
  abbrev run : List WriteEvent → List ReadEvent → Handler → Result Handler
  run es rest h = on_events x.strtod (reread_all x es ++ rest) h

  run-append :
      (es fs : List WriteEvent) (rest : List ReadEvent) (h : Handler)
      → run (es ++ fs) rest h ≡ run es (reread_all x fs ++ rest) h
  run-append es fs rest h =
      ap (λ t. on_events x.strtod t h)
        (ap (λ t. t ++ rest) (reread_all-append x es fs) ∙ append_assoc (reread_all x es) _ rest)

  abbrev in_list : Place → List Pointer → JsonValue → Items → Handler
  in_list p below res l = before p below res (list_slot l)

  abbrev in_map : Place → List Pointer → JsonValue → Fields → Handler
  in_map p below res m = record {
    values = (p, submap m) ∷ below;
    cur_key = [];
    first = false;
    res = res;
  }

  abbrev ReadsValue : JsonValue → Type 0
  ReadsValue v =
      (p : Place) (below : List Pointer) (res : JsonValue) (s : Slot) (rest : List ReadEvent)
      → IsOpen s
      → run (print v) rest (before p below res s)
        ≡ on_events x.strtod rest (after p below res s (settled v))

  abbrev ReadsItems : Items → Type 0
  ReadsItems l =
      (p : Place) (below : List Pointer) (res : JsonValue) (acc : Items) (rest : List ReadEvent)
      → run (print_items l) rest (in_list p below res acc)
        ≡ on_events x.strtod rest (in_list p below res (append_items acc (settled_items l)))

  abbrev ReadsFields : Fields → Type 0
  ReadsFields m =
      (p : Place) (below : List Pointer) (res : JsonValue) (acc : Fields) (rest : List ReadEvent)
      → Precedes acc m
      → run (print_fields m) rest (in_map p below res acc)
        ≡ on_events x.strtod rest (in_map p below res (append_fields acc (settled_fields m)))

  -- Closing the inner container leaves the slot with what the container has become.
  close_inner :
      (p : Place) (below : List Pointer) (res : JsonValue) (s : Slot) (v w : JsonValue)
      → IsOpen s
      → on_end (record {
        values = (place_of s, w) ∷ ((p, filled s v) ∷ below);
        cur_key = [];
        first = false;
        res = res;
      })
        ≡ ok (after p below res s w)
  unfolding on_end
  close_inner p below res s v w o = rw (settle_in-filled s v w o)

  key_pending :
      (p : Place) (below : List Pointer) (res : JsonValue) (k : Bytes) (acc : Fields)
      → on_string k (in_map p below res acc) ≡ ok (before p below res (map_slot k acc))
  unfolding on_string bytes_eq
  key_pending p below res k acc = refl

  mutual
    unfolding print settled reread_all on_events on_event append_items append_fields

    reads_value : (v : JsonValue) → IsPlain v → ReadsValue v
    reads_value nil h p below res s rest o = rw (advance-before p below res s o nil)
    reads_value (bool b) h p below res s rest o = rw (advance-before p below res s o (bool b))
    reads_value (int i) h p below res s rest o =
        rw (on_big_num-decimal x.strtod i (before p below res s), h)
          (rw (advance-before p below res s o (int i)))
    reads_value (double d) h p below res s rest o = elim h [ ]
    reads_value (str t) h p below res s rest o = rw (on_string-before p below res s o t)
    reads_value (big_int t) h p below res s rest o =
        let (i, e) = h in
        rw (e, strtol-decimal i, on_big_num-decimal x.strtod i (before p below res s))
          (rw (advance-before p below res s o (integer i)))
    reads_value (submap m) h p below res s rest o = rw (on_start_object-before p below res s o) (
        run-append (print_fields m) (WriteEvent.end_object ∷ []) rest _
        ∙ reads_fields m h.1 h.0 (place_of s) ((p, filled s (submap no_fields)) ∷ below) res
            no_fields (ReadEvent.end_object ∷ rest) (Precedes-nil m)
        ∙ rw (close_inner p below res s (submap no_fields) (submap (settled_fields m)) o))
    reads_value (sublist l) h p below res s rest o = rw (on_start_array-before p below res s o) (
        run-append (print_items l) (WriteEvent.end_array ∷ []) rest _
        ∙ reads_items l h (place_of s) ((p, filled s (sublist no_items)) ∷ below) res no_items
            (ReadEvent.end_array ∷ rest)
        ∙ rw (close_inner p below res s (sublist no_items) (sublist (settled_items l)) o))
    reads_value (graft g) h p below res s rest o = reads_value g h p below res s rest o

    reads_items : (l : Items) → ItemsPlain l → ReadsItems l
    reads_items no_items h p below res acc rest = rw (append_items-nil acc)
    reads_items (item v l) h p below res acc rest =
        run-append (print v) (print_items l) rest _
        ∙ reads_value v h.0 p below res (list_slot acc) _ tt
        ∙ reads_items l h.1 p below res (push_back acc (settled v)) rest
        ∙ rw (append_items-push_back acc (settled v) (settled_items l))

    reads_fields : (m : Fields) → FieldsPlain m → IsSorted m → ReadsFields m
    reads_fields no_fields h s p below res acc rest o = rw (append_fields-nil acc)
    reads_fields (field k v m) h s p below res acc rest o = rw (key_pending p below res k acc) (
        run-append (print v) (print_fields m) rest _
        ∙ reads_value v h.1 p below res (map_slot k acc) _ (h.0, find_field-AllBelow k acc o.0)
        ∙ reads_fields m h.2 s.1 p below res (insert_field k (settled v) acc) rest
            (Precedes-insert_field k (settled v) acc m s.0 o.1)
        ∙ rw (append_fields-insert_field k (settled v) acc (settled_fields m) o.0))

  reads_root_fields :
      (m : Fields)
      → FieldsPlain m
      → IsSorted m
      → (rest : List ReadEvent)
      → run (print (submap m)) rest start
        ≡ on_events x.strtod rest
            (record start { values = []; first = false; res = settled (submap m) })
  unfolding print settled reread_all on_events on_event on_start_object on_end append_fields
  reads_root_fields m h s rest =
      run-append (print_fields m) (WriteEvent.end_object ∷ []) rest _
      ∙ reads_fields m h s at_root [] nil no_fields (ReadEvent.end_object ∷ rest) (Precedes-nil m)

  reads_root_items :
      (l : Items)
      → ItemsPlain l
      → (rest : List ReadEvent)
      → run (print (sublist l)) rest start
        ≡ on_events x.strtod rest
            (record start { values = []; first = false; res = settled (sublist l) })
  unfolding print settled reread_all on_events on_event on_start_array on_end append_items
  reads_root_items l h rest =
      run-append (print_items l) (WriteEvent.end_array ∷ []) rest _
      ∙ reads_items l h at_root [] nil no_items (ReadEvent.end_array ∷ rest)

  -- From the start, the events of a value's text leave the value itself as the result.
  pub reads_root :
      (v : JsonValue)
      → IsPlain v
      → IsRooted v
      → on_events x.strtod (reread_all x (print v)) start
        ≡ ok (record start { values = []; first = false; res = settled v })
  unfolding settled print on_events
  reads_root (submap m) h r =
      ap (λ t. on_events x.strtod t start) (sym (append-nil _)) ∙ reads_root_fields m h.1 h.0 []
  reads_root (sublist l) h r =
      ap (λ t. on_events x.strtod t start) (sym (append-nil _)) ∙ reads_root_items l h []
  reads_root (graft g) h r = reads_root g h r
  reads_root nil h r = elim r [ ]
  reads_root (bool b) h r = elim r [ ]
  reads_root (int i) h r = elim r [ ]
  reads_root (double d) h r = elim r [ ]
  reads_root (str s) h r = elim r [ ]
  reads_root (big_int s) h r = elim r [ ]
