-- ===== src/Tools/BenchCouch/Posts.antt =====
-- What benchcouch posts of a dump that was written by json_to_string.
use sofa_db.Prelude.{
  ℕ, zero, suc, ◌+◌, ◌<◌, ◌≤◌, ◌≡◌, refl, sym, ap, ◌∙◌, true, false, List, [], ◌∷◌, ◌++◌, map,
  append_assoc, Option, some, All, length, length-append, arith,
}
use sofa_db.Text.{Bytes, bytes_lt}
use sofa_db.Failure.{Result, ok, ◌>>=◌}
use sofa_db.Failure.Laws.{>>=-ok, ok-injective}
use sofa_db.Json.Value.{
  JsonValue, Items, bool, submap, sublist, graft, no_items, item, no_fields, field,
}
use sofa_db.Json.Containers.{push_back}
use sofa_db.Json.Plain.{settled}
use sofa_db.Json.Text.{json_to_string}
use sofa_db.Json.Input.{StreamReader, IsStreamReader, IsAtText, next_value, is_space}
use sofa_db.Streams.Input.{IStream, get_char}
use sofa_db.Externals.{Externals}
use sofa_db.Tools.LoadTags.Loads.{IsDumpable, dump_from, length-dump_from}
use sofa_db.Tools.BenchCouch.{
  with_id, docval, after_value, post_batch, after_batch, fill_batch, post_batches, bench_couch,
  batch_size, all_or_nothing_text, docs_text,
}

-- A list cut into parts of a size, the last of which may be shorter, and no part is empty.
pub data IsSplit {ℓ} {A : Type ℓ} (size : ℕ) : List A → List (List A) → Type ℓ where
  last : {part : List A} → 0 < length part → length part ≤ size → IsSplit size part (part ∷ [])
  more :
      {part rest : List A} {parts : List (List A)}
      → length part ≡ size
      → IsSplit size rest parts
      → IsSplit size (part ++ rest) (part ∷ parts)

abbrev pub items_of : List JsonValue → Items
items_of [] = no_items
items_of (v ∷ l) = item v (items_of l)

-- The values that are read back, each with its "_id", if they all have a place for one.
unfoldable pub with_ids : List JsonValue → Result (List JsonValue)
unfolding with_id
with_ids [] = ok []
with_ids (v ∷ l) = do d ← with_id (settled v); ds ← with_ids l; ok (d ∷ ds)

-- The text of {"all_or_nothing": true, "docs": [...]}.
unfoldable pub batch_text : Externals → List JsonValue → Bytes
batch_text x docs =
    json_to_string x
      (submap (
        field all_or_nothing_text (bool true)
          (field docs_text (graft (sublist (items_of docs))) no_fields)))
      false

push_back-items_of :
    (l : List JsonValue) (v : JsonValue) → push_back (items_of l) v ≡ items_of (l ++ (v ∷ []))
unfolding push_back
push_back-items_of [] v = refl
push_back-items_of (w ∷ l) v = rw (push_back-items_of l v) refl

with_ids-cons :
    (v : JsonValue) (l docs : List JsonValue)
    → with_ids (v ∷ l) ≡ ok docs
    → (d : JsonValue) × (ds : List JsonValue) × (with_id (settled v) ≡ ok d)
      × (with_ids l ≡ ok ds)
      × (d ∷ ds ≡ docs)
unfolding with_ids
with_ids-cons v l docs h =
    let (d, h1, e1) = >>=-ok _ (with_id (settled v)) h in
    let (ds, h2, e2) = >>=-ok _ (with_ids l) h1 in (d, ds, e1, e2, ok-injective h2)

module _ (x : Externals) where
  post_batch-items_of :
      (l : List JsonValue) (v : JsonValue) (posts : List Bytes) (res : Result ℕ)
      → post_batch x (items_of (l ++ (v ∷ []))) (some (posts, res))
        ≡ some (batch_text x (l ++ (v ∷ [])) ∷ posts, res)
  unfolding post_batch docval batch_text bytes_lt
  post_batch-items_of [] v posts res = refl
  post_batch-items_of (w ∷ l) v posts res = refl

module _ (x : Externals) (t : StreamReader) (law : IsStreamReader x t) where
  -- One round of the inner loop.
  fill_one :
      (n : ℕ) (acc : List JsonValue) (r : IStream) (v d : JsonValue) (rest : Bytes) (c : ℕ)
      → IsDumpable v
      → with_id (settled v) ≡ ok d
      → is_space c ≡ false
      → IsAtText r (json_to_string x v false ++ (c ∷ rest))
      → (r' : IStream) × IsAtText r' rest
        × (fill_batch x t (suc n) (items_of acc) r
            ≡ after_value
                (some c, r')
                (items_of (acc ++ (d ∷ [])))
                (λ r''. fill_batch x t n (items_of (acc ++ (d ∷ []))) r''))
  unfolding fill_batch
  fill_one n acc r v d rest c p e s h =
      let (r', got, ch, there) = next_value x t law r v c rest p.0 p.1 s h in
      let list = items_of (acc ++ (d ∷ [])) in
      let next = fill_batch x t n list in
      (
        (get_char r').1,
        there,
        rw (got, e, push_back-items_of acc d)
            (ap (λ o. after_value (o, (get_char r').1) list next) ch),
      )

  -- What is posted from the inner loop on, where the batch has the documents of acc.
  abbrev from_batch : ℕ → ℕ → List JsonValue → IStream → Option (List Bytes × Result ℕ)
  from_batch fuel n acc r =
      after_batch x (λ r'. post_batches x t fuel r') (fill_batch x t n (items_of acc) r)

  from_batch-last :
      (fuel n : ℕ) (acc : List JsonValue) (r : IStream) (v d : JsonValue) (after : Bytes)
      → IsDumpable v
      → with_id (settled v) ≡ ok d
      → IsAtText r (json_to_string x v false ++ (b']' ∷ after))
      → from_batch fuel (suc n) acc r ≡ some (batch_text x (acc ++ (d ∷ [])) ∷ [], ok 0)
  unfolding after_batch after_value
  from_batch-last fuel n acc r v d after p e h =
      let (r', there, step) = fill_one n acc r v d after b']' p e refl h in
      rw step (post_batch-items_of x acc d [] (ok 0))

  from_batch-more :
      (fuel n : ℕ) (acc : List JsonValue) (r : IStream) (v d : JsonValue) (rest : Bytes)
      → IsDumpable v
      → with_id (settled v) ≡ ok d
      → IsAtText r (json_to_string x v false ++ (b',' ∷ rest))
      → (r' : IStream) × IsAtText r' rest
        × (from_batch fuel (suc n) acc r ≡ from_batch fuel n (acc ++ (d ∷ [])) r')
  unfolding after_value
  from_batch-more fuel n acc r v d rest p e h =
      let (r', there, step) = fill_one n acc r v d rest b',' p e refl h in (r', there, rw step refl)

  from_batch-full :
      (fuel : ℕ) (acc : List JsonValue) (r : IStream) (d : JsonValue) (posts : List Bytes)
      → from_batch fuel batch_size [] r ≡ some (posts, ok 0)
      → from_batch (suc fuel) 0 (acc ++ (d ∷ [])) r
        ≡ some (batch_text x (acc ++ (d ∷ [])) ∷ posts, ok 0)
  unfolding after_batch fill_batch post_batches
  from_batch-full fuel acc r d posts h = rw h (post_batch-items_of x acc d posts (ok 0))

  -- The batches of documents that stand in acc and those that are to be read.
  abbrev Batches : ℕ → ℕ → List JsonValue → List JsonValue → IStream → Type 0
  Batches fuel n acc docs r =
      (batches : List (List JsonValue)) × IsSplit batch_size (acc ++ docs) batches
      × (from_batch fuel n acc r ≡ some (map (batch_text x) batches, ok 0))

  from_batch-dump :
      (fuel n : ℕ) (acc : List JsonValue) (r : IStream) (v : JsonValue) (l docs : List JsonValue)
      (after : Bytes)
      → IsDumpable v
      → All IsDumpable l
      → with_ids (v ∷ l) ≡ ok docs
      → length acc + suc n ≡ batch_size
      → length l < suc fuel
      → IsAtText r (dump_from x v l after)
      → Batches fuel (suc n) acc docs r
  unfolding dump_from with_ids
  from_batch-dump fuel n acc r v [] docs after p ps e b f h =
      let (d, ds, e1, e2, same) = with_ids-cons v [] docs e in
      let alone : d ∷ [] ≡ docs = ap (λ k. d ∷ k) (ok-injective e2) ∙ same in
      let len = length-append acc (d ∷ []) in
      rw (sym alone) (
        (acc ++ (d ∷ [])) ∷ [],
        last (omega (arith, len)) (omega (arith, len, b)),
        from_batch-last fuel n acc r v d after p e1 h,
      )
  from_batch-dump zero n acc r v (w ∷ l) docs after p ps e b f h = absurd (omega (arith, f))
  from_batch-dump (suc fuel) zero acc r v (w ∷ l) docs after p ps e b f h =
      let (d, ds, e1, e2, same) = with_ids-cons v (w ∷ l) docs e in
      let (r', there, step) =
        from_batch-more (suc fuel) 0 acc r v d (dump_from x w l after) p e1 h in
      let (batches, split, posted) =
        from_batch-dump fuel 999 [] r' w l ds after ps.0 ps.1 e2 (omega arith) (omega (arith, f))
          there in
      rw (sym same) (
        (acc ++ (d ∷ [])) ∷ batches,
        rw (sym (append_assoc acc (d ∷ []) ds))
            (more (omega (arith, length-append acc (d ∷ []), b)) split),
        step ∙ from_batch-full fuel acc r' d _ posted,
      )
  from_batch-dump (suc fuel) (suc n) acc r v (w ∷ l) docs after p ps e b f h =
      let (d, ds, e1, e2, same) = with_ids-cons v (w ∷ l) docs e in
      let (r', there, step) =
        from_batch-more (suc fuel) (suc n) acc r v d (dump_from x w l after) p e1 h in
      let (batches, split, posted) =
        from_batch-dump (suc fuel) n (acc ++ (d ∷ [])) r' w l ds after ps.0 ps.1 e2
          (omega (arith, length-append acc (d ∷ []), b)) (omega (arith, f)) there in
      rw (sym same) (batches, rw (sym (append_assoc acc (d ∷ []) ds)) split, step ∙ posted)

  -- benchcouch posts the values of a dump, each with its "_id", in their order and each once, in
  -- batches of 1000, the last of which may be shorter, and returns 0. The dump is an array, of at
  -- least one value, that was written value by value with json_to_string and a comma between them;
  -- each is an object or an array, holds no double and no empty key, its big integers are decimal
  -- texts, and its "_id" can be set from its track_id.
  pub bench_couch-dump_from :
      (v : JsonValue) (l docs : List JsonValue) (after : Bytes)
      → IsDumpable v
      → All IsDumpable l
      → with_ids (v ∷ l) ≡ ok docs
      → (batches : List (List JsonValue)) × IsSplit batch_size docs batches
        × (bench_couch x t (b'[' ∷ dump_from x v l after) ≡ some (map (batch_text x) batches, ok 0))
  unfolding bench_couch post_batches get_char
  bench_couch-dump_from v l docs after p ps e =
      from_batch-dump (length (b'[' ∷ dump_from x v l after)) 999 [] _ v l docs after p ps e
        (omega arith) (omega (arith, length-dump_from x v l after))
        (record { ahead = refl; not_eof = refl; not_failed = refl })
