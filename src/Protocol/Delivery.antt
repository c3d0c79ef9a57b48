-- ===== src/Protocol/Delivery.antt =====
-- The classifications of delivery work (internal/protocol: work_package.go, project_state.go,
-- validation_result.go, review_result.go, lesson_candidate.go).
-- `unknown s` is a text `s` that is none of the constants.
use dev_cadence.Prelude.{Bool, true, false, String, ◌==◌}

pub data ChangeClass : Type 0 where
  local systemic architectural : ChangeClass
  unknown : String → ChangeClass

unfoldable pub change_class_valid : ChangeClass → Bool
change_class_valid (ChangeClass.unknown s) = false
change_class_valid _ = true

-- `c == ""`
unfoldable pub change_class_unset : ChangeClass → Bool
change_class_unset (ChangeClass.unknown s) = s == ""
change_class_unset _ = false

pub data DecisionAuthority : Type 0 where
  policy principal consultant human : DecisionAuthority
  unknown : String → DecisionAuthority

unfoldable pub decision_authority_valid : DecisionAuthority → Bool
decision_authority_valid (DecisionAuthority.unknown s) = false
decision_authority_valid _ = true

pub data ValidationOutcome : Type 0 where
  pass fail error cancelled : ValidationOutcome
  unknown : String → ValidationOutcome

unfoldable pub validation_outcome_valid : ValidationOutcome → Bool
validation_outcome_valid (ValidationOutcome.unknown s) = false
validation_outcome_valid _ = true

pub data ValidationScope : Type 0 where
  attempt integration baseline : ValidationScope
  unknown : String → ValidationScope

unfoldable pub validation_scope_valid : ValidationScope → Bool
validation_scope_valid (ValidationScope.unknown s) = false
validation_scope_valid _ = true

pub data ReviewDimension : Type 0 where
  correctness architecture invariants security test_adequacy : ReviewDimension
  concurrency performance maintainability other : ReviewDimension
  unknown : String → ReviewDimension

unfoldable pub review_dimension_valid : ReviewDimension → Bool
review_dimension_valid (ReviewDimension.unknown s) = false
review_dimension_valid _ = true

pub data ReviewVerdict : Type 0 where
  pass concern fail unable_to_verify : ReviewVerdict
  unknown : String → ReviewVerdict

unfoldable pub review_verdict_valid : ReviewVerdict → Bool
review_verdict_valid (ReviewVerdict.unknown s) = false
review_verdict_valid _ = true

pub data LessonScope : Type 0 where
  task project language_framework organization global : LessonScope
  unknown : String → LessonScope

unfoldable pub lesson_scope_valid : LessonScope → Bool
lesson_scope_valid (LessonScope.unknown s) = false
lesson_scope_valid _ = true
