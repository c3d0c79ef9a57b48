-- ===== src/State/Sound/Evidence.antt =====
-- Recording evidence, and the invariant of the lineage.
use dev_cadence.Prelude.{String, ◌≡◌, none, inl, inr}
use dev_cadence.Dict.{get, get-put_inv, get-put_fresh}
use dev_cadence.State.Projection.{EvidenceRef}
use dev_cadence.State.Lineage.{scope_attempt_evidence}
use dev_cadence.State.Core.{Core, IsAbout, with_validation, with_review}
use dev_cadence.State.Sound.{Sound, Grows, IsAbout-Grows, IsJustified-Grows}

module _ (c : Core) (id : String) (ref : EvidenceRef) (fresh : get c.validations id ≡ none) where
  pub validate-Grows : Grows c (with_validation c id ref)
  validate-Grows = record {
    candidates = λ j x h p. h;
    validations = λ j r h. get-put_fresh c.validations id j ref r fresh h;
    reviews = λ j r h. h;
  }

  pub validate-Sound :
      (ref.scope ≡ scope_attempt_evidence → IsAbout c ref)
      → Sound c
      → Sound (with_validation c id ref)
  validate-Sound about s = record {
    tasks_valid = s.tasks_valid;
    attempts_valid = s.attempts_valid;
    attempts_owned = s.attempts_owned;
    listed_exist = s.listed_exist;
    all_listed = s.all_listed;
    one_running = s.one_running;
    aliases_own = s.aliases_own;
    validations_about = λ j r h sc. elim (get-put_inv c.validations id j ref r h) [
      | inl e ↦ rw (← e.1) (IsAbout-Grows validate-Grows (about (rw e.1 sc)))
      | inr e ↦ IsAbout-Grows validate-Grows (s.validations_about j r e.1 sc)
    ];
    reviews_about = λ j r h sc. IsAbout-Grows validate-Grows (s.reviews_about j r h sc);
    justified = λ k t h acc. IsJustified-Grows validate-Grows (s.justified k t h acc);
  }

module _ (c : Core) (id : String) (ref : EvidenceRef) (fresh : get c.reviews id ≡ none) where
  pub review-Grows : Grows c (with_review c id ref)
  review-Grows = record {
    candidates = λ j x h p. h;
    validations = λ j r h. h;
    reviews = λ j r h. get-put_fresh c.reviews id j ref r fresh h;
  }

  pub review-Sound :
      (ref.scope ≡ scope_attempt_evidence → IsAbout c ref) → Sound c → Sound (with_review c id ref)
  review-Sound about s = record {
    tasks_valid = s.tasks_valid;
    attempts_valid = s.attempts_valid;
    attempts_owned = s.attempts_owned;
    listed_exist = s.listed_exist;
    all_listed = s.all_listed;
    one_running = s.one_running;
    aliases_own = s.aliases_own;
    validations_about = λ j r h sc. IsAbout-Grows review-Grows (s.validations_about j r h sc);
    reviews_about = λ j r h sc. elim (get-put_inv c.reviews id j ref r h) [
      | inl e ↦ rw (← e.1) (IsAbout-Grows review-Grows (about (rw e.1 sc)))
      | inr e ↦ IsAbout-Grows review-Grows (s.reviews_about j r e.1 sc)
    ];
    justified = λ k t h acc. IsJustified-Grows review-Grows (s.justified k t h acc);
  }
