-- ===== src/Compaction/Admission/Safe.antt =====
-- internal/compaction/admission.go: what an admission, whatever its outcome, leaves of a session.
use mathlib.Core.Bool.{false≢true}
use mathlib.Core.List.{Memᴰ}
use dev_cadence.Prelude.{
  ℕ, String, ◌-◌, ◌≤◌, ◌<◌, ◌≡◌, refl, sym, ap, ◌∙◌, true, false, Option, List, [], length, ltb,
  Bool-cases, inl, inr, arith,
}
use dev_cadence.Bytes.{Bytes, ◌==◌}
use dev_cadence.Errs.{Category, Result, ok, err}
use dev_cadence.Compaction.Types.{
  Message, ExecutionSession, AuthorizedAssignment, WorkspaceCheckpoint, SessionPolicy, Store,
}
use dev_cadence.Compaction.Pruning.{Template, prune_tool_results}
use dev_cadence.Compaction.Pruning.Kept.{
  Stands, closed, left, replaced, Replaced, rest, nothing, next,
}
use dev_cadence.Compaction.Pruning.Alike.{prune_tool_results_lem}
use dev_cadence.Compaction.Groups.{validate_atomic_tool_groups}
use dev_cadence.Compaction.Digest.Grounded.{HasGrounded, validate_evidence_and_authority-Grounded}
use dev_cadence.Compaction.Summary.{
  place, propagate, protected_groups, remaining_groups, find_safe_cutoff,
}
use dev_cadence.Compaction.Summary.Sound.{apply_tier2_summarization-keeps, remaining-Mem}
use dev_cadence.Compaction.Admission.{Setting, Admission, calc_total, compact, admit_or_compact}
use dev_cadence.Compaction.Admission.Keeps.{admit_or_compact-keeps}

abbrev pub Whole : ExecutionSession → Type 0
Whole s = validate_atomic_tool_groups s.messages ≡ true

-- What no step of the admission writes.
abbrev Fixed : Type 0
Fixed =
    Bytes
    × (AuthorizedAssignment
        × (WorkspaceCheckpoint × (List Bytes × (Option (List String) × SessionPolicy))))

abbrev pub fixed_part : ExecutionSession → Fixed
fixed_part s = (
  s.system_prompt,
  (s.assignment, (s.checkpoint, (s.active_operation_ids, (s.known_decision_ids, s.policy)))),
)

fixed_part-prune_tool_results :
    (t : Template) (store : Option Store) (s : ExecutionSession)
    → fixed_part (prune_tool_results t store s).0 ≡ fixed_part s
unfolding prune_tool_results
fixed_part-prune_tool_results t store s = refl

module _ {t : Template} {store : Option Store} {project : Bytes} (m : Message)
    (p : m.protected ≡ true) where
  Stands-same : {k : Message} {r : Message × ℕ} → Stands t store project k r → m ≡ k → m ≡ r.0
  Stands-same (closed h) e = e
  Stands-same (left o h) e = e
  Stands-same (replaced ref o h) e =
      let pk = ap (λ n. n.protected) (sym e) ∙ p in absurd (false≢true (sym o.unprotected ∙ pk))

  Replaced-Mem :
      {n : ℕ} {ms : List Message} {r : List Message × ℕ}
      → Replaced t store project n ms r
      → Memᴰ m ms
      → Memᴰ m r.0
  Replaced-Mem rest h = h
  Replaced-Mem nothing h = h
  Replaced-Mem (next s r) (Memᴰ.head e) = Memᴰ.head (Stands-same s e)
  Replaced-Mem (next s r) (Memᴰ.tail h) = Memᴰ.tail (Replaced-Mem r h)

-- For every setting, whatever its store, summarizer, counter and order of the map, and every session: if
-- the check of the tool groups passes before an admission, then it passes after it, on every path, errors
-- included.
pub admit_or_compact-Whole :
    (g : Setting) (a : Admission) → Whole a.session → Whole (admit_or_compact g a).1.session
admit_or_compact-Whole g a h =
    admit_or_compact-keeps g Whole (λ s w. (prune_tool_results_lem g.template g.store s).1 ∙ w)
      (λ z s w.
        apply_tier2_summarization-keeps g.order g.render s g.store Whole w (λ d. w) (λ d e. e) z
          g.budget.max_request_tokens)
      a h

prune_tool_results-HasGrounded :
    (t : Template) (store known : Option Store) (s : ExecutionSession)
    → HasGrounded known s
    → HasGrounded known (prune_tool_results t store s).0
unfolding prune_tool_results
prune_tool_results-HasGrounded t store known s h = h

-- For every setting, whatever its summarizer answers, and every session whose digest, if it has one, bears
-- the marks of the check: what an admission leaves has no digest or one in which a fact is marked as
-- verified exactly where the store knows its evidence, and in which a decision is marked as citing a known
-- decision exactly where it does and is never marked as verified.
pub admit_or_compact-HasGrounded :
    (g : Setting) (a : Admission)
    → HasGrounded g.store a.session
    → HasGrounded g.store (admit_or_compact g a).1.session
admit_or_compact-HasGrounded g a h =
    admit_or_compact-keeps g (HasGrounded g.store)
      (λ s w. prune_tool_results-HasGrounded g.template g.store g.store s w)
      (λ z s w.
        let marked = validate_evidence_and_authority-Grounded g.store s.known_decision_ids in
        apply_tier2_summarization-keeps g.order g.render s g.store (HasGrounded g.store) w marked
          (λ d e. marked d) z g.budget.max_request_tokens)
      a h

-- For every setting and session, a message of it that is protected and is no digest is a message of what
-- an admission leaves, itself and not a replacement, on every path, errors included.
pub admit_or_compact-Mem :
    (g : Setting) (a : Admission) (m : Message)
    → m.protected ≡ true
    → m.is_digest ≡ false
    → Memᴰ m a.session.messages
    → Memᴰ m (admit_or_compact g a).1.session.messages
admit_or_compact-Mem g a m p q h =
    admit_or_compact-keeps g (λ s. Memᴰ m s.messages)
      (λ s w. Replaced-Mem m p (prune_tool_results_lem g.template g.store s).0 w)
      (λ z s w.
        let cutoff = find_safe_cutoff g.order s.messages (length s.messages - 2) in
        let placed = place 0 0 [] s.messages in
        let hs = protected_groups placed in
        let gs = remaining_groups cutoff (propagate hs placed) in
        apply_tier2_summarization-keeps g.order g.render s g.store (λ t. Memᴰ m t.messages) w
          (λ d. w) (λ d e. Memᴰ.tail (remaining-Mem m cutoff 0 0 [] hs gs s.messages p q w)) z
          g.budget.max_request_tokens)
      a h

fixed_part-admit_or_compact :
    (g : Setting) (a : Admission)
    → fixed_part (admit_or_compact g a).1.session ≡ fixed_part a.session
fixed_part-admit_or_compact g a =
    admit_or_compact-keeps g (λ s. fixed_part s ≡ fixed_part a.session)
      (λ s w. fixed_part-prune_tool_results g.template g.store s ∙ w)
      (λ z s w.
        apply_tier2_summarization-keeps g.order g.render s g.store
          (λ t. fixed_part t ≡ fixed_part a.session) w (λ d. w) (λ d e. w) z
          g.budget.max_request_tokens)
      a refl

-- How an admission ends.
pub data Outcome (g : Setting) (a : Admission) : Result (Unit {0}) × Admission → Type 0 where
  no_limit : g.budget.max_request_tokens ≡ 0 → Outcome g a (err Category.unsupported, a)
  exceeded :
      {b : Admission}
      → 0 < g.budget.max_request_tokens
      → g.budget.max_request_tokens < calc_total g b.session
      → Outcome g a (err Category.policy_denied, b)
  admitted :
      {b : Admission}
      → 0 < g.budget.max_request_tokens
      → calc_total g b.session ≤ g.budget.max_request_tokens
      → Outcome g a (ok tt, b)

outcome : (g : Setting) (a : Admission) → Outcome g a (admit_or_compact g a)
unfolding admit_or_compact
outcome g a = elim (Bool-cases (g.budget.max_request_tokens == 0)) [
  | inl e ↦ rw e (no_limit (ground (arith, e)))
  | inr e ↦
      elim (Bool-cases (ltb g.budget.max_request_tokens (calc_total g (compact g a).session))) [
        | inl f ↦ rw (e, f) (exceeded (ground (arith, e)) (ground (arith, f)))
        | inr f ↦ rw (e, f) (admitted (ground (arith, e)) (ground (arith, f)))
      ]
]

-- For every setting and session, an admission ends in one of three ways: unsupported, with nothing
-- changed, exactly where the limit is not known; policy denied, where the load that is left exceeds the
-- limit; or admitted, with a load within the limit. The prompt, the assignment with its amendments, the
-- checkpoint, the operation identifiers, the known decisions and the policy are the same in each.
pub admit_or_compact-Outcome :
    (g : Setting) (a : Admission)
    → Outcome g a (admit_or_compact g a)
      × (fixed_part (admit_or_compact g a).1.session ≡ fixed_part a.session)
admit_or_compact-Outcome g a = (outcome g a, fixed_part-admit_or_compact g a)
