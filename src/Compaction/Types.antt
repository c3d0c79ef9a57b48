-- ===== src/Compaction/Types.antt =====
-- internal/compaction/types.go and digest.go: the records of a session. A text whose length counts is
-- bytes; an identifier that is only compared is a string.
use dev_cadence.Prelude.{ℕ, ℤ, String, Bool, true, false, Option, List}
use dev_cadence.Bytes.{Bytes}

pub data LocalityPolicy : Type 0 where
  local_only hybrid remote_allowed : LocalityPolicy
  unknown_locality : String → LocalityPolicy

pub record SessionPolicy : Type 0 where
  pub locality : LocalityPolicy
  pub project_id : Bytes

pub record Amendment : Type 0 where
  pub authority_level : ℤ
  pub journal_seq : ℕ
  pub directive : Bytes
  pub timestamp : ℕ

pub record AuthorizedAssignment : Type 0 where
  pub work_package_id : String
  pub title : Bytes
  pub objective : Bytes
  pub invariants : List Bytes
  pub constraints : List Bytes
  pub amendments : List Amendment

pub record TestEvidenceRecord : Type 0 where
  pub check_id : Bytes
  pub tree_sha : Bytes
  pub passed : Bool
  pub is_stale : Bool

pub record WorkspaceCheckpoint : Type 0 where
  pub base_commit : Bytes
  pub head_commit : Bytes
  pub worktree_id : String
  pub current_tree_sha : Bytes
  pub staged_files : List Bytes
  pub unstaged_files : List Bytes
  pub untracked_files : List Bytes
  pub test_evidence : List TestEvidenceRecord

pub record ToolCall : Type 0 where
  pub id : String
  pub name : Bytes
  pub arguments : Bytes

pub data MessageRole : Type 0 where
  system user assistant tool : MessageRole
  unknown_role : Bytes → MessageRole

pub record Message : Type 0 where
  pub role : MessageRole
  pub content : Bytes
  pub tool_calls : List ToolCall
  pub tool_call_id : String
  pub content_ref : Bytes
  pub is_pruned : Bool
  pub protected : Bool
  pub group_id : String
  pub authority : ℤ
  pub journal_seq : ℕ
  pub is_digest : Bool

pub record ObservedFact : Type 0 where
  pub statement : String
  pub evidence_ref : String
  pub verified : Bool

pub record Hypothesis : Type 0 where
  pub statement : String
  pub status : String

pub record Decision : Type 0 where
  pub statement : String
  pub authorized_by : String
  pub reference_valid : Bool
  pub verified : Bool

pub record RejectedHypothesis : Type 0 where
  pub statement : String
  pub reason : String

pub record TrajectoryDigest : Type 0 where
  pub observed_facts : List ObservedFact
  pub hypotheses : List Hypothesis
  pub decisions : List Decision
  pub unresolved_uncertainties : List String
  pub rejected_hypotheses : List RejectedHypothesis

pub record ExecutionSession : Type 0 where
  pub system_prompt : Bytes
  pub assignment : AuthorizedAssignment
  pub checkpoint : WorkspaceCheckpoint
  pub digest : Option TrajectoryDigest
  pub messages : List Message
  pub active_operation_ids : List Bytes
  pub known_decision_ids : Option (List String)
  pub policy : SessionPolicy

-- internal/artifacts, as far as it is used: storing a content for a project gives its locator or fails,
-- and a locator is known or not.
pub record Store : Type 0 where
  pub put_bytes : Bytes → Bytes → Option Bytes
  pub get : String → Bool

abbrev pub is_tool : MessageRole → Bool
is_tool MessageRole.tool = true
is_tool MessageRole.system = false
is_tool MessageRole.user = false
is_tool MessageRole.assistant = false
is_tool (MessageRole.unknown_role r) = false

abbrev pub is_assistant : MessageRole → Bool
is_assistant MessageRole.assistant = true
is_assistant MessageRole.system = false
is_assistant MessageRole.user = false
is_assistant MessageRole.tool = false
is_assistant (MessageRole.unknown_role r) = false

abbrev pub is_user : MessageRole → Bool
is_user MessageRole.user = true
is_user MessageRole.system = false
is_user MessageRole.assistant = false
is_user MessageRole.tool = false
is_user (MessageRole.unknown_role r) = false
