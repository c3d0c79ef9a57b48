-- ===== src/Compaction/Pruning.antt =====
-- internal/compaction/pruning.go and types.go: the order of amendments, stale marks, and the pruning of
-- tool results.
pub mod Kept
pub mod Alike
pub mod Sorting
use dev_cadence.Prelude.{
  ℕ, zero, suc, ◌+◌, ◌-◌, Bool, true, false, not, Option, none, some, List, [], ◌∷◌, ◌++◌, ◌&&◌,
  ◌||◌, map, length, is_empty, ltb, eq_ℤ, lt_ℤ, if◌then◌else◌,
}
use dev_cadence.Bytes.{Bytes, ◌==◌, equal}
use dev_cadence.Compaction.Types.{
  Amendment, TestEvidenceRecord, WorkspaceCheckpoint, Message, is_tool, ExecutionSession, Store,
}

-- The less function of the sort: a higher level first, then a lower sequence.
abbrev pub before : Amendment → Amendment → Bool
before a b =
    if not (eq_ℤ a.authority_level b.authority_level)
    then lt_ℤ b.authority_level a.authority_level
    else ltb a.journal_seq b.journal_seq

unfoldable pub insert_amendment : Amendment → List Amendment → List Amendment
insert_amendment a [] = a ∷ []
insert_amendment a (b ∷ bs) =
    let later = b ∷ insert_amendment a bs in if before b a then later else a ∷ b ∷ bs

-- `SortAmendments`; `sort.SliceStable` is the insertion from the end.
unfoldable pub sort_amendments : List Amendment → List Amendment
unfolding insert_amendment
sort_amendments [] = []
sort_amendments (a ∷ rest) = insert_amendment a (sort_amendments rest)

abbrev mark : Bytes → TestEvidenceRecord → TestEvidenceRecord
mark sha te = record te { is_stale = not (equal te.tree_sha sha) }

unfoldable pub refresh_stale_marks : Bytes → WorkspaceCheckpoint → WorkspaceCheckpoint
refresh_stale_marks sha wc = record wc {
  current_tree_sha = sha;
  test_evidence = map (mark sha) wc.test_evidence;
}

-- The two parts of `PrunedOutputTemplate`, before and behind the locator; no theorem depends on their text.
pub record Template : Type 0 where
  pub front : Bytes
  pub back : Bytes

abbrev pub pruned : Template → Bytes → Message → Message
pruned t ref m = record m {
  content_ref = ref;
  content = t.front ++ (ref ++ t.back);
  is_pruned = true;
}

abbrev pub pruned_to : Template → Message → Option Bytes → Message × ℕ
pruned_to t m none = (m, 0)
pruned_to t m (some ref) = (pruned t ref m, 1)

abbrev pub stored_ref : Option Store → Bytes → Message → Option Bytes
stored_ref none project m = none
stored_ref (some store) project m = store.put_bytes project m.content

-- Whether a message is one that may be replaced.
abbrev pub prunable : Message → Bool
prunable m =
    not m.protected && ((is_tool m.role && not m.is_pruned) && not (ltb (length m.content) 100))

-- The body of the loop, with the number of messages that it has pruned.
unfoldable pub prune_message : Template → Option Store → Bytes → Message → Message × ℕ
prune_message t store project m =
    if prunable m
    then pruned_to t m
        (if is_empty m.content_ref then stored_ref store project m else some m.content_ref)
    else (m, 0)

abbrev pub add_message : Message × ℕ → List Message × ℕ → List Message × ℕ
add_message (m, k) (ms, n) = (m ∷ ms, k + n)

-- `for i := 0; i < cutoffIndex; i++`
unfoldable pub prune_first : Template → Option Store → Bytes → ℕ → List Message → List Message × ℕ
unfolding prune_message
prune_first t store project zero ms = (ms, 0)
prune_first t store project (suc n) [] = ([], 0)
prune_first t store project (suc n) (m ∷ ms) =
    add_message (prune_message t store project m) (prune_first t store project n ms)

abbrev default_project : Bytes
default_project = 100 ∷ 101 ∷ 102 ∷ 97 ∷ 117 ∷ 108 ∷ 116 ∷ []

abbrev pub project_of : ExecutionSession → Bytes
project_of session =
    if is_empty session.policy.project_id then default_project else session.policy.project_id

-- `PruneToolResults` of a session; the last two messages are kept.
unfoldable pub prune_tool_results :
    Template → Option Store → ExecutionSession → ExecutionSession × ℕ
unfolding prune_first
prune_tool_results t store session =
    let r =
      prune_first t store (project_of session) (length session.messages - 2) session.messages in
    (record session { messages = r.0 }, r.1)
