-- ===== src/Tasks/State.antt =====
-- internal/tasks/state.go: the states of a delivery task, the edges between them and the buckets.
pub mod Edges
pub mod Paths
pub mod Bucketing
use dev_cadence.Prelude.{
  Bool, true, false, not, ◌&&◌, String, ◌==◌, List, [], ◌∷◌, ◌++◌, if◌then◌else◌,
}
use dev_cadence.Errs.{Result, refuse, ◌>>◌, integrity, invalid_argument, invalid_transition}
use dev_cadence.Protocol.Delivery.{DecisionAuthority}

pub data State : Type 0 where
  proposed scouting designing ready running validating reviewing : State
  accepted integrating integration_validating done blocked : State
  unknown : String → State

-- `s == t` on the strings of the code.
unfoldable pub state_eq : State → State → Bool
state_eq proposed proposed = true
state_eq scouting scouting = true
state_eq designing designing = true
state_eq ready ready = true
state_eq running running = true
state_eq validating validating = true
state_eq reviewing reviewing = true
state_eq accepted accepted = true
state_eq integrating integrating = true
state_eq integration_validating integration_validating = true
state_eq done done = true
state_eq blocked blocked = true
state_eq (unknown s) (unknown t) = s == t
state_eq _ _ = false

abbrev pub all_states : List State
all_states =
    proposed ∷ scouting ∷ designing ∷ ready ∷ running ∷ validating ∷ reviewing ∷ accepted
    ∷ integrating ∷ integration_validating ∷ done ∷ blocked ∷ []

-- The loops `for _, x := range list { if x == s { return true } }`.
unfoldable pub state_mem : List State → State → Bool
unfolding state_eq
state_mem [] s = false
state_mem (x ∷ xs) s = let rest = state_mem xs s in if state_eq x s then true else rest

unfoldable pub state_valid : State → Bool
unfolding state_mem
state_valid s = state_mem all_states s

unfoldable pub terminal : State → Bool
unfolding state_eq
terminal s = state_eq s done

unfoldable pub active : State → Bool
unfolding state_valid state_eq
active s = state_valid s && not (state_eq s done) && not (state_eq s blocked)

-- The adjacency list; a state that is no key has no edges.
unfoldable pub transitions : State → List State
transitions proposed = scouting ∷ designing ∷ []
transitions scouting = designing ∷ []
transitions designing = ready ∷ []
transitions ready = running ∷ []
transitions running = validating ∷ []
transitions validating = running ∷ reviewing ∷ []
transitions reviewing = running ∷ accepted ∷ []
transitions accepted = integrating ∷ []
transitions integrating = integration_validating ∷ []
transitions integration_validating = done ∷ []
transitions blocked = designing ∷ []
transitions _ = []

-- `Allowed` before its sort, which only fixes the order in which it is shown.
unfoldable pub allowed : State → List State
unfolding transitions active
allowed s = if active s then transitions s ++ blocked ∷ [] else transitions s

unfoldable pub can_transition : State → State → Bool
unfolding state_valid state_eq active state_mem transitions
can_transition from to =
    if not (state_valid from && state_valid to)
    then false
    else if state_eq to blocked
    then active from
    else state_mem (transitions from) to

unfoldable pub check_transition : State → State → Result (Unit {0})
unfolding state_valid can_transition
check_transition from to = do
  refuse (not (state_valid from)) integrity
  refuse (not (state_valid to)) invalid_argument
  refuse (not (can_transition from to)) invalid_transition

pub data Bucket : Type 0 where
  ready running blocked awaiting_principal : Bucket

unfoldable pub buckets : State → DecisionAuthority → List Bucket
buckets State.ready a = Bucket.ready ∷ []
buckets scouting a = Bucket.running ∷ []
buckets State.running a = Bucket.running ∷ []
buckets validating a = Bucket.running ∷ []
buckets reviewing a = Bucket.running ∷ []
buckets integrating a = Bucket.running ∷ []
buckets integration_validating a = Bucket.running ∷ []
buckets designing a = awaiting_principal ∷ []
buckets State.blocked DecisionAuthority.principal = Bucket.blocked ∷ awaiting_principal ∷ []
buckets State.blocked a = Bucket.blocked ∷ []
buckets _ a = []
