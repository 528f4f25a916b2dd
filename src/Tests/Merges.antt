-- ===== src/Tests/Merges.antt =====
-- A put with a merge, and what it leaves alone.
use sofa_db.Prelude.{◌≡◌, refl, true, List, [], arith}
use sofa_db.Text.{Bytes}
use sofa_db.Failure.{ok}
use sofa_db.Json.Value.{no_items}
use sofa_db.Revision.{Revision, make_revision, is_empty}
use sofa_db.Revlog.View.{LogView, represent, text_items}
use sofa_db.Conflict.{merge, member}
use sofa_db.Conflict.Spec.{entry_of, merge_view, adjoin_all, winner}
use sofa_db.Conflict.Merge.{merge-represent}
use sofa_db.Storage.Memory.{memory, memory_map}
use sofa_db.Database.{PutResult, make_path}
use sofa_db.Database.Put.{put, compute_revision}
use sofa_db.Database.Put.Effects.{assigned, accepted, stored, put-merge}
use sofa_db.Database.Put.Frame.{put-frame}
use sofa_db.Tests.Codec.{libraries, documented}
use sofa_db.Tests.Data.{db, doc, content, rev_a, rev_b, log_a, held}
use sofa_db.Tests.Documents.{held-HoldsLog, b_is_not_top}
use sofa_db.Tests.Reads.{a-IsCurrent}

abbrev new_rev : Revision
new_rev = assigned libraries memory memory_map rev_b content

abbrev merged_log : LogView
merged_log = merge_view rev_a new_rev [] log_a

merges : merge libraries 1 new_rev no_items (represent log_a) ≡ ok (represent merged_log)
unfolding text_items compute_revision is_empty winner adjoin_all member
merges = merge-represent libraries 1 rev_a new_rev [] log_a a-IsCurrent refl refl (omega arith)

put-merge_example :
    put libraries memory db 1 doc rev_b content true held
    ≡ ok (
      accepted libraries memory memory_map rev_b content merged_log,
      stored libraries memory memory_map (make_path db doc) rev_b content merged_log held,
    )
put-merge_example =
    put-merge libraries documented memory memory_map db 1 doc rev_b content held refl log_a
      merged_log (entry_of rev_a) held-HoldsLog (unfold make_revision in omega arith) b_is_not_top
      merges

abbrev done_merge : PutResult × List (Bytes × Bytes)
done_merge = (
  accepted libraries memory memory_map rev_b content merged_log,
  stored libraries memory memory_map (make_path db doc) rev_b content merged_log held,
)

put-frame_example : memory_map.lookup [] done_merge.1 ≡ memory_map.lookup [] held
put-frame_example =
    put-frame libraries memory memory_map db 1 doc rev_b content true held done_merge []
      put-merge_example (unfold make_path in λ e. cc) (unfold make_path in λ e. cc)
