-- ===== src/Compaction/Summary.antt =====
-- internal/compaction/admission.go: the second tier, which summarizes older messages.
pub mod Sound
use dev_cadence.Prelude.{
  ℕ, zero, suc, ◌+◌, ◌-◌, ◌/◌, String, Bool, true, false, not, Option, none, some, List, [], ◌∷◌,
  ◌++◌, ◌&&◌, ◌||◌, map, length, contains, is_empty, is_some, ltb, leb, ◌==◌, if◌then◌else◌,
}
use dev_cadence.Bytes.{Bytes}
use dev_cadence.Dict.{Dict, get, put}
use dev_cadence.Errs.{Result, ok, err}
use dev_cadence.Compaction.Types.{
  Message, ToolCall, TrajectoryDigest, ExecutionSession, Store, is_tool, is_assistant,
}
use dev_cadence.Compaction.Groups.{
  call_ids, assistant_tool_calls, tool_results, validate_atomic_tool_groups,
}
use dev_cadence.Compaction.Digest.{
  Summarizer, validate_evidence_and_authority, format_as_user_message,
}

abbrev num_eq : ℕ → ℕ → Bool
num_eq a b = leb a b && leb b a

-- `for _, tc := range msg.ToolCalls { owner[tc.ID] = i }`
abbrev pub own_all : List String → ℕ → Dict ℕ → Dict ℕ
own_all [] i owner = owner
own_all (id ∷ ids) i owner = own_all ids i (put owner id i)

abbrev pub opens_group : Message → Bool
opens_group m = is_assistant m.role && not (is_empty m.tool_calls)

abbrev pub is_result : Message → Bool
is_result m = is_tool m.role && not (m.tool_call_id == "")

-- `groupEnd`, an entry for each index of an owner.
abbrev extend : ℕ → ℕ → List (ℕ × ℕ) → List (ℕ × ℕ)
extend owner i [] = []
extend owner i ((o, end) ∷ gs) =
    (o, if num_eq o owner && ltb end i then i else end) ∷ extend owner i gs

abbrev extend_owner : Option ℕ → ℕ → List (ℕ × ℕ) → List (ℕ × ℕ)
extend_owner none i gs = gs
extend_owner (some owner) i gs = extend owner i gs

unfoldable pub group_ends : ℕ → Dict ℕ → List (ℕ × ℕ) → List Message → List (ℕ × ℕ)
group_ends i owner gs [] = gs
group_ends i owner gs (m ∷ ms) =
    group_ends (i + 1) (if opens_group m then own_all (call_ids m.tool_calls) i owner else owner)
      (if opens_group m
        then gs ++ (i, i) ∷ []
        else if is_result m
        then extend_owner (get owner m.tool_call_id) i gs
        else gs)
      ms

abbrev pub shift_before : ℕ → List (ℕ × ℕ) → ℕ
shift_before cutoff [] = cutoff
shift_before cutoff ((owner, end) ∷ gs) =
    shift_before (if ltb owner cutoff && leb cutoff end then owner else cutoff) gs

-- `findSafeCutoff`; `order` is the order in which the range over the map visits its entries, which Go
-- leaves open.
unfoldable pub find_safe_cutoff : (order : List (ℕ × ℕ) → List (ℕ × ℕ)) → List Message → ℕ → ℕ
unfolding group_ends
find_safe_cutoff order ms target =
    if num_eq target 0
    then 0
    else if leb (length ms) target
    then length ms
    else shift_before target (order (group_ends 0 [] [] ms))

-- A message with its index and its group, if it has one.
pub record Placed : Type 0 where
  pub message : Message
  pub index : ℕ
  pub group : Option ℕ

abbrev pub group_of : Message → ℕ → Dict ℕ → Option ℕ
group_of m next owner =
    if opens_group m then some next else if is_result m then get owner m.tool_call_id else none

-- `msgGroup` and `toolCallToGroup`
unfoldable pub place : ℕ → ℕ → Dict ℕ → List Message → List Placed
place i next owner [] = []
place i next owner (m ∷ ms) =
    record { message = m; index = i; group = group_of m next owner }
    ∷ place (i + 1) (if opens_group m then next + 1 else next)
        (if opens_group m then own_all (call_ids m.tool_calls) next owner else owner) ms

abbrev pub add_group : Option ℕ → List ℕ → List ℕ
add_group none gs = gs
add_group (some g) gs = g ∷ gs

abbrev has_number : List ℕ → ℕ → Bool
has_number [] n = false
has_number (g ∷ gs) n = num_eq g n || has_number gs n

abbrev pub in_groups : List ℕ → Option ℕ → Bool
in_groups gs none = false
in_groups gs (some g) = has_number gs g

-- `groupProtected`
unfoldable pub protected_groups : List Placed → List ℕ
protected_groups [] = []
protected_groups (x ∷ xs) =
    let rest = protected_groups xs in if x.message.protected then add_group x.group rest else rest

-- Every member of a group with a protected member is protected.
unfoldable pub propagate : List ℕ → List Placed → List Placed
propagate gs [] = []
propagate gs (x ∷ xs) =
    record x {
      message = record x.message { protected = x.message.protected || in_groups gs x.group };
    }
    ∷ propagate gs xs

-- `groupInRemaining`
unfoldable pub remaining_groups : ℕ → List Placed → List ℕ
remaining_groups cutoff [] = []
remaining_groups cutoff (x ∷ xs) =
    let rest = remaining_groups cutoff xs in
    if not x.message.is_digest && (leb cutoff x.index || x.message.protected)
    then add_group x.group rest
    else rest

abbrev pub stays : ℕ → List ℕ → Placed → Bool
stays cutoff gs x = in_groups gs x.group || (not (ltb x.index cutoff) || x.message.protected)

unfoldable pub to_summarize : ℕ → List ℕ → List Placed → List Message
to_summarize cutoff gs [] = []
to_summarize cutoff gs (x ∷ xs) =
    let rest = to_summarize cutoff gs xs in
    if not x.message.is_digest && not (stays cutoff gs x) then x.message ∷ rest else rest

unfoldable pub remaining : ℕ → List ℕ → List Placed → List Message
remaining cutoff gs [] = []
remaining cutoff gs (x ∷ xs) =
    let rest = remaining cutoff gs xs in
    if not x.message.is_digest && stays cutoff gs x then x.message ∷ rest else rest

-- Whether every result from before is there for every call that is kept.
abbrev pub results_kept : List String → List String → List String → Bool
results_kept [] original now = true
results_kept (id ∷ ids) original now =
    (not (contains original id) || contains now id) && results_kept ids original now

-- What happens with an answer of the summarizer: the digest is stored even where the messages are not
-- replaced.
abbrev pub with_digest :
    (TrajectoryDigest → Bytes)
    → Option Store
    → List Message
    → ExecutionSession
    → Result TrajectoryDigest
    → ExecutionSession
with_digest render store kept session (err c) = session
with_digest render store kept session (ok answer) =
    let d = validate_evidence_and_authority store session.known_decision_ids answer in
    let ms = format_as_user_message render d ∷ kept in
    let t = record session { digest = some d } in
    if not (validate_atomic_tool_groups ms)
    then t
    else if results_kept (assistant_tool_calls ms) (tool_results session.messages) (tool_results ms)
    then record t { messages = ms }
    else t

unfoldable pub apply_tier2_summarization :
    (order : List (ℕ × ℕ) → List (ℕ × ℕ))
    → (TrajectoryDigest → Bytes)
    → Summarizer
    → Option Store
    → ℕ
    → ExecutionSession
    → ExecutionSession
apply_tier2_summarization order render summarizer store limit session =
    if ltb (length session.messages) 4
    then session
    else let cutoff = find_safe_cutoff order session.messages (length session.messages - 2) in
      if num_eq cutoff 0
      then session
      else let placed = place 0 0 [] session.messages in
        let xs = propagate (protected_groups placed) placed in
        let gs = remaining_groups cutoff xs in
        let kept = remaining cutoff gs xs in
        let older = to_summarize cutoff gs xs in
        if is_empty older || not (validate_atomic_tool_groups kept)
        then session
        else with_digest render store kept session
            (summarizer session.policy session older (limit / 4))
