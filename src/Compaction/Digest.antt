-- ===== src/Compaction/Digest.antt =====
-- internal/compaction/digest.go: the checks of a digest's references, and the policy of a summarizer.
pub mod Grounded
use dev_cadence.Prelude.{
  ℕ, pos, String, Bool, true, false, not, Option, none, some, List, [], ◌∷◌, ◌&&◌, map, contains,
  ◌==◌, if◌then◌else◌,
}
use dev_cadence.Bytes.{Bytes}
use dev_cadence.Errs.{Category, Result, ok, err}
use dev_cadence.Compaction.Types.{
  LocalityPolicy, SessionPolicy, ObservedFact, Decision, TrajectoryDigest, Message, MessageRole,
  ExecutionSession, Store,
}

abbrev pub known_to : Option Store → String → Bool
known_to none ref = false
known_to (some store) ref = not (ref == "") && store.get ref

abbrev pub decision_known : Option (List String) → String → Bool
decision_known none id = false
decision_known (some ids) id = not (id == "") && contains ids id

abbrev pub check_fact : Option Store → ObservedFact → ObservedFact
check_fact store f = record f { verified = known_to store f.evidence_ref }

-- A reference that exists does not make the text that cites it verified.
abbrev pub check_decision : Option (List String) → Decision → Decision
check_decision ids d = record d {
  reference_valid = decision_known ids d.authorized_by;
  verified = false;
}

unfoldable pub validate_evidence_and_authority :
    Option Store → Option (List String) → TrajectoryDigest → TrajectoryDigest
validate_evidence_and_authority store ids d = record d {
  observed_facts = map (check_fact store) d.observed_facts;
  decisions = map (check_decision ids) d.decisions;
}

-- `FormatAsUserMessage`; `render` is the text with the digest as JSON.
unfoldable pub format_as_user_message : (TrajectoryDigest → Bytes) → TrajectoryDigest → Message
format_as_user_message render d = record {
  role = MessageRole.user;
  content = render d;
  tool_calls = [];
  tool_call_id = "";
  content_ref = [];
  is_pruned = false;
  protected = true;
  group_id = "";
  authority = pos 0;
  journal_seq = 0;
  is_digest = true;
}

-- The `Summarizer` interface: a model behind it answers with a digest or fails.
abbrev pub Summarizer : Type 0
Summarizer = SessionPolicy → ExecutionSession → List Message → ℕ → Result TrajectoryDigest

abbrev is_local_only : LocalityPolicy → Bool
is_local_only LocalityPolicy.local_only = true
is_local_only LocalityPolicy.hybrid = false
is_local_only LocalityPolicy.remote_allowed = false
is_local_only (LocalityPolicy.unknown_locality l) = false

abbrev backend_result : Option Summarizer → Summarizer
backend_result none policy session ms max_tokens = err Category.internal
backend_result (some backend) policy session ms max_tokens = backend policy session ms max_tokens

-- `BaseSummarizer.Summarize`
unfoldable pub summarize : Option Summarizer → (is_local : Bool) → Summarizer
summarize backend is_local policy session ms max_tokens =
    if is_local_only policy.locality && not is_local
    then err Category.policy_denied
    else backend_result backend policy session ms max_tokens
