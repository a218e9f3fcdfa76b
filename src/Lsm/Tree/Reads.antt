-- ===== src/Lsm/Tree/Reads.antt =====
-- What Get of pkg/lsm/lsm.go answers after any writes, flushes and compactions.
use laura_db.Prelude.{ℕ, ◌≡◌, ap, sym, ◌∙◌, List}
use laura_db.Lsm.SsTable.{Entry}
use laura_db.Lsm.SsTable.Entries.{lookup}
use laura_db.Lsm.Merge.Least.{find_first}
use laura_db.Lsm.Tree.{Tree, get, answer}
use laura_db.Lsm.Tree.Layers.{layers, get-layers, answer-visible}
use laura_db.Lsm.Tree.Reach.{
  Reach, start, puts, deletes, flush_begins, flush_ends, compaction_begins, compaction_ends, Inv,
}
use laura_db.Lsm.Tree.Writes.{new_tree-Inv, put-Inv, delete-Inv}
use laura_db.Lsm.Tree.Flushes.{begin_flush-Inv, end_flush-Inv}
use laura_db.Lsm.Tree.Compactions.{begin_compaction-Inv, end_compaction-Inv}

pub Reach-Inv : (h : List Entry) (t : Tree) → Reach h t → Inv h t
Reach-Inv _ _ (start size interval pos) = new_tree-Inv size interval pos
Reach-Inv _ _ (puts h t draws key value timestamp r w) =
    put-Inv draws key value timestamp h t w (Reach-Inv h t r)
Reach-Inv _ _ (deletes h t draws key timestamp r w) =
    delete-Inv draws key timestamp h t w (Reach-Inv h t r)
Reach-Inv _ _ (flush_begins h t r) = begin_flush-Inv h t (Reach-Inv h t r)
Reach-Inv _ _ (flush_ends h t footer r) = end_flush-Inv footer h t (Reach-Inv h t r)
Reach-Inv _ _ (compaction_begins h t r) = begin_compaction-Inv h t (Reach-Inv h t r)
Reach-Inv _ _ (compaction_ends h t footer r) = end_compaction-Inv footer h t (Reach-Inv h t r)

-- After any calls of Put and Delete, one after the other, with keys that are not empty, keys and
-- values shorter than 2 ^ 32 bytes and timestamps below 2 ^ 64, and with flushes and compactions
-- beginning and ending anywhere between them, Get answers with the value of the last write of the
-- key, and with no value where that was a Delete or there was none. The index interval is above 0.
pub get-last_write :
    (h : List Entry) (t : Tree) (key : List ℕ) → Reach h t → get key t ≡ answer (lookup key h)
get-last_write h t key r =
    let v = Reach-Inv h t r in
    get-layers key t v.is_open v.mem v.imms v.tables
    ∙ sym (answer-visible (find_first key (layers t)))
    ∙ ap answer (v.latest key)
    ∙ answer-visible (lookup key h)
