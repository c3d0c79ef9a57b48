-- ===== src/Compaction/Admission.antt =====
-- internal/compaction/admission.go: the token counter and the admission of a request.
pub mod Keeps
pub mod Safe
use dev_cadence.Prelude.{
  ℕ, zero, suc, ◌+◌, ◌-◌, ◌*◌, ◌/◌, Bool, true, false, not, Option, none, some, List, [], ◌∷◌, ◌++◌,
  ◌&&◌, ◌||◌, length, is_empty, ltb, leb, if◌then◌else◌,
}
use dev_cadence.Bytes.{Bytes, ◌==◌}
use dev_cadence.Errs.{Category, Result, ok, err}
use dev_cadence.Compaction.Types.{
  MessageRole, Message, ToolCall, Amendment, TestEvidenceRecord, TrajectoryDigest, ExecutionSession,
  Store,
}
use dev_cadence.Compaction.Pruning.{Template, prune_tool_results}
use dev_cadence.Compaction.Digest.{Summarizer}
use dev_cadence.Compaction.Summary.{apply_tier2_summarization}

-- `ReserveTokens` is computed with floats; the budget holds what it gives.
pub record TokenBudget : Type 0 where
  pub max_request_tokens : ℕ
  pub reserve_tokens : ℕ

pub record AdmissionState : Type 0 where
  pub turn_index : ℕ
  pub tier1_exhausted : Bool

unfoldable pub count_string : Bytes → ℕ
count_string text = if is_empty text then 0 else (length text + 3) / 4

abbrev pub count_all : List Bytes → ℕ
count_all [] = 0
count_all (t ∷ ts) = count_string t + count_all ts

abbrev count_directives : List Amendment → ℕ
count_directives [] = 0
count_directives (a ∷ rest) = count_string a.directive + count_directives rest

abbrev count_evidence : List TestEvidenceRecord → ℕ
count_evidence [] = 0
count_evidence (te ∷ tes) = count_string (te.check_id ++ te.tree_sha) + count_evidence tes

abbrev count_calls : List ToolCall → ℕ
count_calls [] = 0
count_calls (c ∷ cs) = count_string c.name + count_string c.arguments + count_calls cs

-- The texts of the roles have 6, 4, 9 and 4 letters.
abbrev count_role : MessageRole → ℕ
count_role MessageRole.system = 2
count_role MessageRole.user = 1
count_role MessageRole.assistant = 3
count_role MessageRole.tool = 1
count_role (MessageRole.unknown_role r) = count_string r

unfoldable pub count_messages : List Message → ℕ
unfolding count_string
count_messages [] = 0
count_messages (m ∷ ms) =
    (count_role m.role + count_string m.content) + count_calls m.tool_calls + count_messages ms

-- `SimpleTokenCounter.CountSession`
unfoldable pub count_session : ExecutionSession → ℕ
unfolding count_messages count_string
count_session s =
    let a = s.assignment in
    let c = s.checkpoint in
    count_string s.system_prompt
    + count_string (a.title ++ a.objective)
    + (count_all a.invariants + count_all a.constraints + count_directives a.amendments)
    + count_all s.active_operation_ids
    + count_string (c.current_tree_sha ++ (c.base_commit ++ c.head_commit))
    + (count_all c.staged_files + count_all c.unstaged_files + count_all c.untracked_files)
    + count_evidence c.test_evidence
    + count_messages s.messages

-- What a request is admitted with; `count` is the `TokenCounter`, whose default is `count_session`.
pub record Setting : Type 0 where
  pub budget : TokenBudget
  pub store : Option Store
  pub summarizer : Option Summarizer
  pub count : ExecutionSession → ℕ
  pub template : Template
  pub render : TrajectoryDigest → Bytes
  pub order : List (ℕ × ℕ) → List (ℕ × ℕ)

-- The session and the state that a step leaves.
pub record Admission : Type 0 where
  pub session : ExecutionSession
  pub state : AdmissionState

abbrev pub calc_total : Setting → ExecutionSession → ℕ
calc_total g session = g.count session + g.budget.reserve_tokens

-- `int(0.75 * float64(C))` and so on
abbrev pub watermark : ℕ → Setting → ℕ
watermark percent g = percent * g.budget.max_request_tokens / 100

abbrev pub set_exhausted : Bool → Admission → Admission
set_exhausted b a = record a { state = record a.state { tier1_exhausted = b } }

-- Tier 1: pruning, unless it has stopped to pay. A reduction below a twentieth exhausts it.
unfoldable pub tier1 : Setting → Admission → Admission
tier1 g a =
    if a.state.tier1_exhausted
    then a
    else let before = calc_total g a.session in
      let b = record a { session = (prune_tool_results g.template g.store a.session).0 } in
      if leb before (20 * (before - calc_total g b.session)) then b else set_exhausted true b

abbrev pub with_summarizer : Setting → Admission → Option Summarizer → Admission
with_summarizer g a none = a
with_summarizer g a (some summarizer) = record a {
  session =
      apply_tier2_summarization g.order g.render summarizer g.store g.budget.max_request_tokens
        a.session;
}

-- Tier 2, where tier 1 was not enough.
unfoldable pub tier2 : Setting → Admission → Admission
tier2 g a =
    let total = calc_total g a.session in
    if leb total (watermark 65 g)
    then set_exhausted false a
    else if ltb (watermark 85 g) total || ltb g.budget.max_request_tokens total
    then with_summarizer g a g.summarizer
    else a

unfoldable pub compact : Setting → Admission → Admission
unfolding tier1 tier2
compact g a =
    let total = calc_total g a.session in
    if leb total (watermark 65 g)
    then set_exhausted false a
    else if ltb (watermark 75 g) total
    then tier2 g (tier1 g a)
    else a

-- `AdmitOrCompact` of a session: what is left of it, beside the error.
unfoldable pub admit_or_compact : Setting → Admission → Result (Unit {0}) × Admission
unfolding compact
admit_or_compact g a =
    if g.budget.max_request_tokens == 0
    then (err Category.unsupported, a)
    else let b = compact g a in
      if ltb g.budget.max_request_tokens (calc_total g b.session)
      then (err Category.policy_denied, b)
      else (ok tt, b)
