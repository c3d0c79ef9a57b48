-- ===== src/Compaction/Tests.antt =====
-- internal/compaction on a session of six messages: a call with a long result, an old turn, a protected
-- one, and two recent ones.
use mathlib.Core.List.{Memᴰ}
use dev_cadence.Prelude.{
  ℕ, ℤ, pos, negsuc, String, zero, suc, ◌≡◌, refl, true, false, none, some, List, [], ◌∷◌, length,
}
use dev_cadence.Bytes.{Bytes}
use dev_cadence.Errs.{ok}
use dev_cadence.Compaction.Types.{
  MessageRole, Message, Amendment, ExecutionSession, Store, TrajectoryDigest, LocalityPolicy,
}
use dev_cadence.Compaction.Pruning.{Template, project_of, prune_tool_results, sort_amendments}
use dev_cadence.Compaction.Pruning.Kept.{Replaced}
use dev_cadence.Compaction.Pruning.Alike.{prune_tool_results_lem}
use dev_cadence.Compaction.Pruning.Sorting.{Ordered, with_key, sort_amendments_lem}
use dev_cadence.Compaction.Groups.{validate_atomic_tool_groups}
use dev_cadence.Compaction.Digest.{Summarizer, format_as_user_message}
use dev_cadence.Compaction.Digest.Grounded.{HasGrounded}
use dev_cadence.Compaction.Summary.{
  apply_tier2_summarization, find_safe_cutoff, place, propagate, protected_groups, remaining_groups,
  remaining, to_summarize,
}
use dev_cadence.Dict.{get, put}
use dev_cadence.Compaction.Admission.{Setting, Admission, admit_or_compact, count_session}
use dev_cadence.Compaction.Admission.Safe.{
  Whole, Outcome, fixed_part, admit_or_compact-Whole, admit_or_compact-HasGrounded,
  admit_or_compact-Mem, admit_or_compact-Outcome,
}

abbrev letters : ℕ → Bytes
letters zero = []
letters (suc n) = 97 ∷ letters n

abbrev plain : MessageRole → ℕ → Message
plain role n = record {
  role = role;
  content = letters n;
  tool_calls = [];
  tool_call_id = "";
  content_ref = [];
  is_pruned = false;
  protected = false;
  group_id = "";
  authority = pos 0;
  journal_seq = 0;
  is_digest = false;
}

abbrev call : Message
call = record (plain MessageRole.assistant 8) {
  tool_calls = record { id = "read"; name = letters 4; arguments = letters 4 } ∷ [];
}

abbrev answer : Message
answer = record (plain MessageRole.tool 200) { tool_call_id = "read" }

abbrev instruction : Message
instruction = record (plain MessageRole.user 40) { protected = true }

abbrev dialogue : List Message
dialogue =
    call
    ∷ answer
    ∷ instruction
    ∷ plain MessageRole.user 400
    ∷ plain MessageRole.assistant 12
    ∷ plain MessageRole.user 8
    ∷ []

abbrev session : ExecutionSession
session = record {
  system_prompt = letters 20;
  assignment = record {
    work_package_id = "wp";
    title = [];
    objective = [];
    invariants = [];
    constraints = [];
    amendments = [];
  };
  checkpoint = record {
    base_commit = [];
    head_commit = [];
    worktree_id = "";
    current_tree_sha = [];
    staged_files = [];
    unstaged_files = [];
    untracked_files = [];
    test_evidence = [];
  };
  digest = none;
  messages = dialogue;
  active_operation_ids = [];
  known_decision_ids = none;
  policy = record { locality = LocalityPolicy.local_only; project_id = [] };
}

abbrev template : Template
template = record { front = letters 40; back = letters 40 }

abbrev artifacts : Store
artifacts = record { put_bytes = λ project content. some (letters 6); get = λ ref. true }

abbrev trajectory : TrajectoryDigest
trajectory = record {
  observed_facts =
      record { statement = "it builds"; evidence_ref = "log"; verified = false }
      ∷ record { statement = "it is fast"; evidence_ref = ""; verified = true }
      ∷ [];
  hypotheses = [];
  decisions =
      record { statement = "merge"; authorized_by = "D1"; reference_valid = true; verified = true }
      ∷ [];
  unresolved_uncertainties = [];
  rejected_hypotheses = [];
}

abbrev summarizer : Summarizer
summarizer policy s ms limit = ok trajectory

abbrev setting : Setting
setting = record {
  budget = record { max_request_tokens = 140; reserve_tokens = 10 };
  store = some artifacts;
  summarizer = some summarizer;
  count = count_session;
  template = template;
  render = λ d. letters 30;
  order = λ gs. gs;
}

abbrev start : Admission
start = record { session = session; state = record { turn_index = 0; tier1_exhausted = false } }

abbrev amendment : ℤ → ℕ → ℕ → Amendment
amendment level seq at = record {
  authority_level = level;
  journal_seq = seq;
  directive = [];
  timestamp = at;
}

abbrev amendments : List Amendment
amendments =
    amendment (pos 1) 5 0
    ∷ amendment (pos 3) 7 1
    ∷ amendment (pos 1) 5 2
    ∷ amendment (negsuc 0) 2 3
    ∷ []

dialogue-Whole : Whole session
unfolding validate_atomic_tool_groups
dialogue-Whole = refl

-- The first tier does not pay, so the second one leaves the digest, the protected message and the two
-- recent ones.
four_left : length (admit_or_compact setting start).1.session.messages ≡ 4
unfolding admit_or_compact validate_atomic_tool_groups count_session prune_tool_results
    apply_tier2_summarization find_safe_cutoff get put to_summarize propagate place remaining_groups
    protected_groups remaining format_as_user_message
four_left = refl

-- Two overlapping groups: the calls `a` and `b`, the result of `a` and then that of `b`.
abbrev asks : String → Message
asks name = record (plain MessageRole.assistant 1) {
  tool_calls = record { id = name; name = []; arguments = [] } ∷ [];
}

abbrev answers : String → Message
answers name = record (plain MessageRole.tool 1) { tool_call_id = name }

abbrev overlapping : List Message
overlapping = asks "a" ∷ asks "b" ∷ answers "a" ∷ answers "b" ∷ answers "b" ∷ []

abbrev swap : List (ℕ × ℕ) → List (ℕ × ℕ)
swap [] = []
swap (x ∷ []) = x ∷ []
swap (x ∷ y ∷ gs) = y ∷ x ∷ gs

-- The cutoff depends on the order in which the map of the groups is visited.
one_order : find_safe_cutoff (λ gs. gs) overlapping 3 ≡ 1
unfolding find_safe_cutoff get put
one_order = refl

other_order : find_safe_cutoff swap overlapping 3 ≡ 0
unfolding find_safe_cutoff get put
other_order = refl

sort_amendments_lem_example :
    Ordered (sort_amendments amendments)
    × ((level : ℤ) (seq : ℕ)
        → with_key level seq (sort_amendments amendments) ≡ with_key level seq amendments)
sort_amendments_lem_example = sort_amendments_lem amendments

prune_tool_results_lem_example :
    Replaced template (some artifacts) (project_of session) 4 dialogue (
      (prune_tool_results template (some artifacts) session).0.messages,
      (prune_tool_results template (some artifacts) session).1,
    )
    × (validate_atomic_tool_groups (prune_tool_results template (some artifacts) session).0.messages
        ≡ validate_atomic_tool_groups dialogue)
prune_tool_results_lem_example = prune_tool_results_lem template (some artifacts) session

admit_or_compact-Whole_example : Whole (admit_or_compact setting start).1.session
admit_or_compact-Whole_example = admit_or_compact-Whole setting start dialogue-Whole

admit_or_compact-HasGrounded_example :
    HasGrounded (some artifacts) (admit_or_compact setting start).1.session
admit_or_compact-HasGrounded_example = admit_or_compact-HasGrounded setting start tt

admit_or_compact-Mem_example : Memᴰ instruction (admit_or_compact setting start).1.session.messages
admit_or_compact-Mem_example =
    admit_or_compact-Mem setting start instruction refl refl
      (Memᴰ.tail (Memᴰ.tail (Memᴰ.head refl)))

admit_or_compact-Outcome_example :
    Outcome setting start (admit_or_compact setting start)
    × (fixed_part (admit_or_compact setting start).1.session ≡ fixed_part session)
admit_or_compact-Outcome_example = admit_or_compact-Outcome setting start
