-- ===== src/Compaction/Admission/Keeps.antt =====
-- internal/compaction/admission.go: what pruning and summarization preserve, admission preserves.
use dev_cadence.Prelude.{
  Bool, true, false, Option, none, some, ltb, leb, if◌then◌else◌, ◌||◌, ◌*◌, ◌-◌,
}
use dev_cadence.Bytes.{◌==◌}
use dev_cadence.Errs.{Result}
use dev_cadence.Compaction.Types.{ExecutionSession}
use dev_cadence.Compaction.Pruning.{prune_tool_results}
use dev_cadence.Compaction.Digest.{Summarizer}
use dev_cadence.Compaction.Summary.{apply_tier2_summarization}
use dev_cadence.Compaction.Admission.{
  Setting, Admission, calc_total, watermark, with_summarizer, tier1, tier2, compact,
  admit_or_compact,
}

abbrev pub pruned_session : Setting → ExecutionSession → ExecutionSession
pruned_session g s = (prune_tool_results g.template g.store s).0

abbrev pub summarized : Setting → Summarizer → ExecutionSession → ExecutionSession
summarized g z s =
    apply_tier2_summarization g.order g.render z g.store g.budget.max_request_tokens s

pub either : {A : Type 0} (P : A → Type 0) (b : Bool) {x y : A} → P x → P y → P (if b then x else y)
either P true p q = p
either P false p q = q

module _ (g : Setting) (P : ExecutionSession → Type 0)
    (prune : (s : ExecutionSession) → P s → P (pruned_session g s))
    (summarize : (z : Summarizer) (s : ExecutionSession) → P s → P (summarized g z s)) where
  abbrev R : Result (Unit {0}) × Admission → Type 0
  R r = P r.1.session

  abbrev Q : Admission → Type 0
  Q a = P a.session

  tier1-keeps : (a : Admission) → P a.session → P (tier1 g a).session
  unfolding tier1
  tier1-keeps a p =
      let q = prune a.session p in
      either Q a.state.tier1_exhausted p (
        either Q
          (leb (calc_total g a.session)
            (20 * (calc_total g a.session - calc_total g (pruned_session g a.session))))
          q q)

  with_summarizer-keeps :
      (a : Admission) (z : Option Summarizer) → P a.session → P (with_summarizer g a z).session
  with_summarizer-keeps a none p = p
  with_summarizer-keeps a (some z) p = summarize z a.session p

  tier2-keeps : (a : Admission) → P a.session → P (tier2 g a).session
  unfolding tier2
  tier2-keeps a p = either Q (leb (calc_total g a.session) (watermark 65 g)) p (
      either Q
        (ltb (watermark 85 g) (calc_total g a.session)
          || ltb g.budget.max_request_tokens (calc_total g a.session))
        (with_summarizer-keeps a g.summarizer p) p)

  compact-keeps : (a : Admission) → P a.session → P (compact g a).session
  unfolding compact
  compact-keeps a p = either Q (leb (calc_total g a.session) (watermark 65 g)) p (
      either Q (ltb (watermark 75 g) (calc_total g a.session))
        (tier2-keeps (tier1 g a) (tier1-keeps a p)) p)

  pub admit_or_compact-keeps : (a : Admission) → P a.session → P (admit_or_compact g a).1.session
  unfolding admit_or_compact
  admit_or_compact-keeps a p = either R (g.budget.max_request_tokens == 0) p (
      either R (ltb g.budget.max_request_tokens (calc_total g (compact g a).session))
        (compact-keeps a p) (compact-keeps a p))
