-- ===== src/Tools/LoadTags/Tracks.antt =====
-- The document that loadtags (tools/loadtags.cpp) makes of a value that was read.
use sofa_db.Prelude.{◌≡◌, refl, sym, ap, true, Option, none, some, Bool-cases, inl, inr}
use sofa_db.Text.{Bytes, bytes_lt, bytes_eq}
use sofa_db.Text.Order.{bytes_eq_iff, bytes_lt_irrefl, bytes_lt_asymm}
use sofa_db.Failure.{Result, ok}
use sofa_db.Json.Value.{
  JsonValue, Fields, nil, bool, int, double, str, big_int, submap, sublist, graft, no_fields, field,
}
use sofa_db.Json.Access.{as_str, get_submap}
use sofa_db.Json.Bignum.{fits_int64}
use sofa_db.Text.{strtol}
use sofa_db.Json.Containers.{find_field, set_field, index_key}
use sofa_db.Json.Containers.Laws.{AllAbove, IsSorted}
use sofa_db.Json.Plain.{IsPlain, FieldsPlain, settled, settled_fields}
use sofa_db.Tools.LoadTags.{track_id_of, metadata_text, track_id_text}

-- A value whose maps, one inside the other, are in order.
abbrev mutual
  pub IsOrdered : JsonValue → Type 0
  IsOrdered (submap m) = IsSorted m × FieldsOrdered m
  IsOrdered _ = Unit {0}

  FieldsOrdered : Fields → Type 0
  FieldsOrdered no_fields = Unit {0}
  FieldsOrdered (field k v m) = IsOrdered v × FieldsOrdered m

settled_fields-AllAbove : (k : Bytes) (m : Fields) → AllAbove k m → AllAbove k (settled_fields m)
unfolding settled_fields
settled_fields-AllAbove k no_fields a = tt
settled_fields-AllAbove k (field j v m) a = (a.0, settled_fields-AllAbove k m a.1)

settled_fields-IsSorted : (m : Fields) → IsSorted m → IsSorted (settled_fields m)
unfolding settled_fields
settled_fields-IsSorted no_fields s = tt
settled_fields-IsSorted (field k v m) s =
    (settled_fields-AllAbove k m s.0, settled_fields-IsSorted m s.1)

settled-big_int : (s : Bytes) → IsOrdered (settled (big_int s))
unfolding settled
settled-big_int s = elim (Bool-cases (fits_int64 (strtol s))) [
  | inl fits ↦ rw fits tt
  | inr large ↦ rw large tt
]

mutual
  unfolding settled

  pub settled-IsOrdered : (v : JsonValue) → IsPlain v → IsOrdered (settled v)
  settled-IsOrdered nil p = tt
  settled-IsOrdered (bool b) p = tt
  settled-IsOrdered (int i) p = tt
  settled-IsOrdered (double d) p = tt
  settled-IsOrdered (str s) p = tt
  settled-IsOrdered (big_int s) p = settled-big_int s
  settled-IsOrdered (submap m) p =
      (settled_fields-IsSorted m p.0, settled_fields-FieldsOrdered m p.1)
  settled-IsOrdered (sublist l) p = tt
  settled-IsOrdered (graft g) p = settled-IsOrdered g p

  settled_fields-FieldsOrdered : (m : Fields) → FieldsPlain m → FieldsOrdered (settled_fields m)
  settled_fields-FieldsOrdered no_fields p = tt
  settled_fields-FieldsOrdered (field k v m) p =
      (settled-IsOrdered v p.1, settled_fields-FieldsOrdered m p.2)

find_field-IsOrdered :
    (k : Bytes) (m : Fields) (w : JsonValue)
    → FieldsOrdered m
    → find_field k m ≡ some w
    → IsOrdered w
unfolding find_field
find_field-IsOrdered k no_fields w o h = absurd (cc h)
find_field-IsOrdered k (field j v m) w o h = elim (Bool-cases (bytes_eq j k)) [
  | inl same ↦ let e : v ≡ w = cc (rw same at h) in rw (sym e) o.0
  | inr other ↦ find_field-IsOrdered k m w o.1 (rw other at h)
]

find_field-above :
    (j k : Bytes) (m : Fields) (w : JsonValue)
    → AllAbove j m
    → find_field k m ≡ some w
    → bytes_lt j k ≡ true
unfolding find_field
find_field-above j k no_fields w a h = absurd (cc h)
find_field-above j k (field i v m) w a h = elim (Bool-cases (bytes_eq i k)) [
  | inl same ↦ rw (← (bytes_eq_iff i k).0 same) a.0
  | inr other ↦ find_field-above j k m w a.1 (rw other at h)
]

-- What is written over itself leaves a map as it is.
set_field-same :
    (k : Bytes) (m : Fields) (w : JsonValue)
    → IsSorted m
    → find_field k m ≡ some w
    → set_field k w m ≡ m
unfolding find_field set_field
set_field-same k no_fields w s h = absurd (cc h)
set_field-same k (field j v m) w s h = elim (Bool-cases (bytes_eq j k)) [
  | inl same ↦
      let key : k ≡ j = sym ((bytes_eq_iff j k).0 same) in
      let e : w ≡ v = cc (rw same at h) in rw (key, bytes_lt_irrefl j, e) refl
  | inr other ↦
      let found : find_field k m ≡ some w = rw other at h in
      let above = find_field-above j k m w s.0 found in
      rw (bytes_lt_asymm j k above, above, set_field-same k m w s.1 found) refl
]

-- The member of an object.
abbrev member_of : Bytes → JsonValue → Option JsonValue
member_of k (submap m) = find_field k m
member_of k _ = none

-- The text at "track_id" in "metadata", of a value as it is read back.
pub record HasTrack (id : Bytes) (v : JsonValue) : Type 0 where
  pub metadata : JsonValue
  pub inside : member_of metadata_text (settled v) ≡ some metadata
  pub track : member_of track_id_text metadata ≡ some (str id)

abbrev index_found : Option JsonValue → Bytes → Fields → Result (JsonValue × JsonValue)
index_found o k m = elim o [
  | none ↦ ok (nil, submap (set_field k nil m))
  | some w ↦ ok (w, submap m)
]

index_key-found :
    (k : Bytes) (m : Fields) (w : JsonValue)
    → find_field k m ≡ some w
    → index_key (submap m) k ≡ ok (w, submap m)
unfolding index_key get_submap
index_key-found k m w h = ap (λ (o : Option JsonValue). index_found o k m) h

track_id_of-ordered :
    (v metadata : JsonValue) (id : Bytes)
    → IsOrdered v
    → member_of metadata_text v ≡ some metadata
    → member_of track_id_text metadata ≡ some (str id)
    → track_id_of v ≡ ok (id, v)
unfolding track_id_of as_str
track_id_of-ordered (submap m) (submap n) id o h k =
    let inner : IsSorted n = (find_field-IsOrdered metadata_text m (submap n) o.1 h).0 in
    rw
      (
        index_key-found metadata_text m (submap n) h,
        index_key-found track_id_text n (str id) k,
        set_field-same track_id_text n (str id) inner k,
        set_field-same metadata_text m (submap n) o.0 h,
      )
      refl
track_id_of-ordered (submap m) _ id o h k = absurd (cc k)
track_id_of-ordered _ metadata id o h k = absurd (cc h)

-- The value is read and not changed.
pub track_id_of-HasTrack :
    (id : Bytes) (v : JsonValue)
    → IsPlain v
    → HasTrack id v
    → track_id_of (settled v) ≡ ok (id, settled v)
track_id_of-HasTrack id v p h =
    track_id_of-ordered (settled v) h.metadata id (settled-IsOrdered v p) h.inside h.track
