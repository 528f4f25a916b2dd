-- ===== src/Tools/BenchCouch.antt =====
-- benchcouch (tools/benchcouch.cpp): a JSON array is read value by value, and the values are posted
-- in batches. What libcurl does with a text is not seen by the program, which does not look at its
-- status, so that the texts posted are listed.
pub mod Posts
use sofa_db.Prelude.{
  ℕ, zero, suc, true, false, List, [], ◌∷◌, Option, none, some, length, ◌==◌, if◌then◌else◌,
}
use sofa_db.Text.{Bytes}
use sofa_db.Failure.{Result, ok, fail, ◌>>=◌}
use sofa_db.Json.Value.{JsonValue, Items, bool, submap, sublist, graft, no_items, item, no_fields}
use sofa_db.Json.Containers.{index_key, assign_key, push_back}
use sofa_db.Json.Text.{json_to_string}
use sofa_db.Json.Input.{StreamReader, json_from_stream}
use sofa_db.Streams.Input.{IStream, open_stream, get_char}
use sofa_db.Externals.{Externals}
use sofa_db.Tools.LoadTags.{metadata_text, track_id_text}

-- "_id", "docs" and "all_or_nothing"
abbrev pub id_text : Bytes
id_text = b'_' ∷ b'i' ∷ b'd' ∷ []

abbrev pub docs_text : Bytes
docs_text = b'd' ∷ b'o' ∷ b'c' ∷ b's' ∷ []

abbrev pub all_or_nothing_text : Bytes
all_or_nothing_text =
    b'a' ∷ b'l' ∷ b'l' ∷ b'_' ∷ b'o' ∷ b'r' ∷ b'_' ∷ b'n' ∷ b'o' ∷ b't' ∷ b'h' ∷ b'i' ∷ b'n' ∷ b'g'
    ∷ []

-- What there is at most in a batch.
abbrev pub batch_size : ℕ
batch_size = 1000

-- val["_id"] = val["metadata"]["track_id"]: a missing element is made.
unfoldable pub with_id : JsonValue → Result JsonValue
unfolding index_key assign_key
with_id val = do
  metadata ← index_key val metadata_text
  track ← index_key metadata.0 track_id_text
  val' ← assign_key metadata.1 metadata_text track.1
  assign_key val' id_text track.0

-- How the inner loop ends: the batch is full, the array was closed, or an unexpected character came.
pub data BatchEnd : Type 0 where
  full : Items → IStream → BatchEnd
  finish : Items → BatchEnd
  unexpected : BatchEnd

-- What follows the character behind a value; `rest` is the next round of the inner loop.
unfoldable pub after_value :
    Option ℕ × IStream → Items → (IStream → Result BatchEnd) → Result BatchEnd
after_value (none, r) list rest = ok unexpected
after_value (some c, r) list rest =
    if c == b']' then ok (finish list) else if c == b',' then rest r else ok unexpected

module _ (x : Externals) where
  -- The text of a batch.
  unfoldable pub docval : Items → Result Bytes
  unfolding assign_key
  docval list = do
    docz ← assign_key (submap no_fields) all_or_nothing_text (bool true)
    docz' ← assign_key docz docs_text (graft (sublist list))
    ok (json_to_string x docz' false)

  -- The second half of the outer loop: the batch is posted, and `rest` is what comes after it.
  unfoldable pub post_batch :
      Items → Option (List Bytes × Result ℕ) → Option (List Bytes × Result ℕ)
  unfolding docval
  post_batch no_items rest = some ([], ok 0)
  post_batch (item v l) rest = elim (docval (item v l)) [
    | fail failure ↦ some ([], fail failure)
    | ok text ↦ elim rest [ none ↦ none | some (posts, res) ↦ some (text ∷ posts, res) ]
  ]

  unfoldable pub after_batch :
      (IStream → Option (List Bytes × Result ℕ)) → Result BatchEnd → Option (List Bytes × Result ℕ)
  unfolding post_batch
  after_batch rest (fail failure) = some ([], fail failure)
  after_batch rest (ok unexpected) = some ([], ok 2)
  after_batch rest (ok (finish list)) = post_batch list (some ([], ok 0))
  after_batch rest (ok (full list r)) = post_batch list (rest r)

  module _ (t : StreamReader) where
    -- The inner loop, for as many values as are left of the batch.
    unfoldable pub fill_batch : ℕ → Items → IStream → Result BatchEnd
    unfolding with_id after_value push_back get_char
    fill_batch zero list r = ok (full list r)
    fill_batch (suc n) list r = do
      read ← json_from_stream x t r
      val ← with_id read.0
      let list' = push_back list val
      after_value (get_char read.1) list' (λ r'. fill_batch n list' r')

    -- The outer loop: the texts that are posted, in their order, and what main returns or throws. A
    -- round spends a unit of fuel; `none` says that there is none left.
    unfoldable pub post_batches : ℕ → IStream → Option (List Bytes × Result ℕ)
    unfolding after_batch fill_batch
    post_batches zero r = none
    post_batches (suc fuel) r =
        after_batch (λ r'. post_batches fuel r') (fill_batch batch_size no_items r)

    -- main, from the opening of the dump on.
    unfoldable pub bench_couch : Bytes → Option (List Bytes × Result ℕ)
    unfolding post_batches get_char
    bench_couch dump =
        let (ch, r) = get_char (open_stream dump) in
        elim ch [
          | none ↦ some ([], ok 2)
          | some c ↦ if c == b'[' then post_batches (suc (length dump)) r else some ([], ok 2)
        ]
