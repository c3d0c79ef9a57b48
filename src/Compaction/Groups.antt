-- ===== src/Compaction/Groups.antt =====
-- internal/compaction/pruning.go: `ValidateAtomicToolGroups`.
use dev_cadence.Prelude.{
  String, Bool, true, false, not, List, [], ◌∷◌, ◌++◌, ◌&&◌, ◌||◌, contains, is_empty, ◌==◌,
  if◌then◌else◌,
}
use dev_cadence.Compaction.Types.{Message, ToolCall, is_tool, is_assistant, is_user}

abbrev pub call_ids : List ToolCall → List String
call_ids [] = []
call_ids (c ∷ cs) = c.id ∷ call_ids cs

-- `assistantToolCalls` and `toolResults`, as the keys that are set.
unfoldable pub assistant_tool_calls : List Message → List String
assistant_tool_calls [] = []
assistant_tool_calls (m ∷ ms) =
    (if is_assistant m.role then call_ids m.tool_calls else []) ++ assistant_tool_calls ms

unfoldable pub tool_results : List Message → List String
tool_results [] = []
tool_results (m ∷ ms) =
    (if is_tool m.role && not (m.tool_call_id == "") then m.tool_call_id ∷ [] else [])
    ++ tool_results ms

abbrev pub all_in : List String → List String → Bool
all_in [] known = true
all_in (x ∷ xs) known = contains known x && all_in xs known

-- Whether an assistant message with calls, or any turn of a user or an assistant, stands in the list.
unfoldable pub has_calls : List Message → Bool
has_calls [] = false
has_calls (m ∷ ms) = (is_assistant m.role && not (is_empty m.tool_calls)) || has_calls ms

unfoldable pub has_turn : List Message → Bool
has_turn [] = false
has_turn (m ∷ ms) = (is_user m.role || is_assistant m.role) || has_turn ms

-- Whether the calls of a message may wait for results: it is the last one with calls, and no turn
-- stands behind it.
abbrev pub pending_at_end : Message → List Message → Bool
pending_at_end m later =
    ((is_assistant m.role && not (is_empty m.tool_calls)) && not (has_calls later))
    && not (has_turn later)

unfoldable pub calls_answered : List String → List Message → Bool
unfolding has_calls has_turn
calls_answered results [] = true
calls_answered results (m ∷ ms) =
    (not (is_assistant m.role) || (all_in (call_ids m.tool_calls) results || pending_at_end m ms))
    && calls_answered results ms

-- Whether the check passes.
unfoldable pub validate_atomic_tool_groups : List Message → Bool
unfolding assistant_tool_calls tool_results calls_answered
validate_atomic_tool_groups ms =
    all_in (tool_results ms) (assistant_tool_calls ms) && calls_answered (tool_results ms) ms
