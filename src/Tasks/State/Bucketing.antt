-- ===== src/Tasks/State/Bucketing.antt =====
-- What `Buckets` of internal/tasks/state.go reports.
use dev_cadence.Prelude.{◌≡◌, ◌↔◌, ◌⊎◌, Bool, true, false, List, [], ◌∷◌, ◌||◌, arith}
use dev_cadence.Protocol.Delivery.{DecisionAuthority}
use dev_cadence.Tasks.State.{
  State, designing, blocked, proposed, accepted, done, state_valid, Bucket, buckets,
}

abbrev pub bucket_eq : Bucket → Bucket → Bool
bucket_eq Bucket.ready Bucket.ready = true
bucket_eq Bucket.running Bucket.running = true
bucket_eq Bucket.blocked Bucket.blocked = true
bucket_eq Bucket.awaiting_principal Bucket.awaiting_principal = true
bucket_eq _ _ = false

abbrev pub in_bucket : List Bucket → Bucket → Bool
in_bucket [] b = false
in_bucket (x ∷ xs) b = bucket_eq x b || in_bucket xs b

-- The bucket that awaits the principal has exactly the tasks in DESIGNING and those BLOCKED on the
-- principal's authority.
pub awaiting_principal_iff :
    (s : State) (a : DecisionAuthority)
    → (in_bucket (buckets s a) Bucket.awaiting_principal ≡ true)
      ↔ ((s ≡ designing) ⊎ ((s ≡ blocked) × (a ≡ DecisionAuthority.principal)))
unfolding buckets
awaiting_principal_iff s a = ground arith

-- A known state is in no bucket exactly if it is PROPOSED, ACCEPTED or DONE.
pub buckets_empty_iff :
    (s : State) (a : DecisionAuthority)
    → state_valid s ≡ true
    → (buckets s a ≡ []) ↔ ((s ≡ proposed) ⊎ (s ≡ accepted) ⊎ (s ≡ done))
unfolding buckets state_valid
buckets_empty_iff s a h = ground arith
