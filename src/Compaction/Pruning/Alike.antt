-- ===== src/Compaction/Pruning/Alike.antt =====
-- internal/compaction/pruning.go: the check of tool groups only reads what pruning keeps.
use dev_cadence.Prelude.{
  ℕ, ◌-◌, ◌≡◌, refl, ap, ◌∙◌, Bool, not, Option, List, [], ◌∷◌, ◌++◌, ◌&&◌, ◌||◌, length, is_empty,
  ◌==◌, String, if◌then◌else◌,
}
use std.Path.{ap₂}
use dev_cadence.Bytes.{Bytes}
use dev_cadence.Compaction.Types.{
  Message, MessageRole, ToolCall, is_tool, is_assistant, is_user, ExecutionSession, Store,
}
use dev_cadence.Compaction.Pruning.{Template, project_of, prune_tool_results}
use dev_cadence.Compaction.Pruning.Kept.{
  Stands, closed, left, replaced, Replaced, rest, nothing, next, prune_first-Replaced,
}
use dev_cadence.Compaction.Groups.{
  call_ids, assistant_tool_calls, tool_results, all_in, has_calls, has_turn, calls_answered,
  validate_atomic_tool_groups,
}

-- What the check reads of a message.
abbrev pub Shape : Type 0
Shape = MessageRole × (List ToolCall × String)

abbrev pub shape : Message → Shape
shape m = (m.role, (m.tool_calls, m.tool_call_id))

pub data Alike : List Message → List Message → Type 0 where
  none_left : Alike [] []
  both :
      {m k : Message} {ms ks : List Message}
      → shape m ≡ shape k
      → Alike ms ks
      → Alike (m ∷ ms) (k ∷ ks)

refl-Alike : (ms : List Message) → Alike ms ms
refl-Alike [] = none_left
refl-Alike (m ∷ ms) = both refl (refl-Alike ms)

module _ {t : Template} {store : Option Store} {project : Bytes} where
  shape-Stands : {m : Message} {r : Message × ℕ} → Stands t store project m r → shape r.0 ≡ shape m
  shape-Stands (closed h) = refl
  shape-Stands (left o h) = refl
  shape-Stands (replaced ref o h) = refl

  pub Replaced-Alike :
      {n : ℕ} {ms : List Message} {r : List Message × ℕ}
      → Replaced t store project n ms r
      → Alike r.0 ms
  Replaced-Alike (rest {ms = ms}) = refl-Alike ms
  Replaced-Alike nothing = none_left
  Replaced-Alike (next s r) = both (shape-Stands s) (Replaced-Alike r)

-- The parts of a message's check as functions of its shape.
abbrev calls_in : Shape → List String
calls_in s = if is_assistant s.0 then call_ids s.1.0 else []

abbrev result_in : Shape → List String
result_in s = if is_tool s.0 && not (s.1.1 == "") then s.1.1 ∷ [] else []

abbrev with_calls : Shape → Bool
with_calls s = is_assistant s.0 && not (is_empty s.1.0)

abbrev a_turn : Shape → Bool
a_turn s = is_user s.0 || is_assistant s.0

abbrev answered : List String → Bool → Bool → Shape → Bool
answered results calls turn s =
    not (is_assistant s.0)
    || (all_in (call_ids s.1.0) results || ((with_calls s && not calls) && not turn))

assistant_tool_calls-Alike :
    {ms ks : List Message} → Alike ms ks → assistant_tool_calls ms ≡ assistant_tool_calls ks
unfolding assistant_tool_calls
assistant_tool_calls-Alike none_left = refl
assistant_tool_calls-Alike (both s h) =
    ap₂ (λ x r. calls_in x ++ r) s (assistant_tool_calls-Alike h)

tool_results-Alike : {ms ks : List Message} → Alike ms ks → tool_results ms ≡ tool_results ks
unfolding tool_results
tool_results-Alike none_left = refl
tool_results-Alike (both s h) = ap₂ (λ x r. result_in x ++ r) s (tool_results-Alike h)

has_calls-Alike : {ms ks : List Message} → Alike ms ks → has_calls ms ≡ has_calls ks
unfolding has_calls
has_calls-Alike none_left = refl
has_calls-Alike (both s h) = ap₂ (λ x r. with_calls x || r) s (has_calls-Alike h)

has_turn-Alike : {ms ks : List Message} → Alike ms ks → has_turn ms ≡ has_turn ks
unfolding has_turn
has_turn-Alike none_left = refl
has_turn-Alike (both s h) = ap₂ (λ x r. a_turn x || r) s (has_turn-Alike h)

calls_answered-Alike :
    (results : List String) {ms ks : List Message}
    → Alike ms ks
    → calls_answered results ms ≡ calls_answered results ks
unfolding calls_answered
calls_answered-Alike results none_left = refl
calls_answered-Alike results (both {m} {k} {ms} {ks} s h) =
    ap₂ (λ x b. x && b)
      (ap (answered results (has_calls ms) (has_turn ms)) s
        ∙ ap₂ (λ c u. answered results c u (shape k)) (has_calls-Alike h) (has_turn-Alike h))
      (calls_answered-Alike results h)

pub validate_atomic_tool_groups-Alike :
    {ms ks : List Message}
    → Alike ms ks
    → validate_atomic_tool_groups ms ≡ validate_atomic_tool_groups ks
unfolding validate_atomic_tool_groups
validate_atomic_tool_groups-Alike {ms} {ks} h =
    ap₂ (λ x y. x && y) (ap₂ all_in (tool_results-Alike h) (assistant_tool_calls-Alike h))
      (ap (λ r. calls_answered r ms) (tool_results-Alike h)
        ∙ calls_answered-Alike (tool_results ks) h)

module _ (t : Template) (store : Option Store) (session : ExecutionSession) where
  -- For every session, pruning its tool results decides each message by itself, in order. The last two
  -- are kept. An earlier one that is protected, no tool result, pruned already or shorter than 100 bytes
  -- is kept. Any other one is replaced where its content is preserved: at the locator that it has, or,
  -- where it has none, at the one under which the store has put the content. Its content is then the
  -- text that names the locator, the locator is recorded and it is marked as pruned, and nothing else of
  -- it changes. Where it has no locator and there is no store or the store fails, it is kept. The count
  -- is the number of messages replaced, and the check of the tool groups has the same outcome before
  -- and after.
  pub prune_tool_results_lem :
      Replaced t store
        (project_of session)
        (length session.messages - 2)
        session.messages
        ((prune_tool_results t store session).0.messages, (prune_tool_results t store session).1)
      × (validate_atomic_tool_groups (prune_tool_results t store session).0.messages
          ≡ validate_atomic_tool_groups session.messages)
  unfolding prune_tool_results
  prune_tool_results_lem =
      let r =
        prune_first-Replaced t store (project_of session) (length session.messages - 2)
          session.messages in
      (r, validate_atomic_tool_groups-Alike (Replaced-Alike r))
