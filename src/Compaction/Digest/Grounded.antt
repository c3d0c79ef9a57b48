-- ===== src/Compaction/Digest/Grounded.antt =====
-- internal/compaction/digest.go: the marks that a checked digest bears.
use dev_cadence.Prelude.{◌≡◌, refl, String, false, Option, none, some, List, [], ◌∷◌, map, All}
use dev_cadence.Compaction.Types.{ObservedFact, Decision, TrajectoryDigest, ExecutionSession, Store}
use dev_cadence.Compaction.Digest.{
  known_to, decision_known, check_fact, check_decision, validate_evidence_and_authority,
}

-- A fact is marked as verified exactly where the store knows its evidence. A decision is marked as
-- citing a known decision exactly where it does, and never as verified.
abbrev pub Grounded : Option Store → Option (List String) → TrajectoryDigest → Type 0
Grounded store ids d =
    All (λ f. f.verified ≡ known_to store f.evidence_ref) d.observed_facts
    × All (λ c. (c.reference_valid ≡ decision_known ids c.authorized_by) × (c.verified ≡ false))
        d.decisions

abbrev GroundedIn : Option Store → Option (List String) → Option TrajectoryDigest → Type 0
GroundedIn store ids none = Unit
GroundedIn store ids (some d) = Grounded store ids d

-- The digest of a session, if it has one.
abbrev pub HasGrounded : Option Store → ExecutionSession → Type 0
HasGrounded store s = GroundedIn store s.known_decision_ids s.digest

facts-Grounded :
    (store : Option Store) (fs : List ObservedFact)
    → All (λ f. f.verified ≡ known_to store f.evidence_ref) (map (check_fact store) fs)
facts-Grounded store [] = tt
facts-Grounded store (f ∷ fs) = (refl, facts-Grounded store fs)

decisions-Grounded :
    (ids : Option (List String)) (ds : List Decision)
    → All
        (λ c. (c.reference_valid ≡ decision_known ids c.authorized_by) × (c.verified ≡ false))
        (map (check_decision ids) ds)
decisions-Grounded ids [] = tt
decisions-Grounded ids (d ∷ ds) = ((refl, refl), decisions-Grounded ids ds)

pub validate_evidence_and_authority-Grounded :
    (store : Option Store) (ids : Option (List String)) (d : TrajectoryDigest)
    → Grounded store ids (validate_evidence_and_authority store ids d)
unfolding validate_evidence_and_authority
validate_evidence_and_authority-Grounded store ids d =
    (facts-Grounded store d.observed_facts, decisions-Grounded ids d.decisions)
