-- ===== src/Compaction/Pruning/Kept.antt =====
-- internal/compaction/pruning.go: what pruning leaves of a message.
use mathlib.Core.Bool.{false≢true}
use dev_cadence.Prelude.{
  ℕ, zero, suc, ◌≤◌, ◌≡◌, ◌≢◌, refl, sym, ◌∙◌, true, false, Option, none, some, List, [], ◌∷◌, ◌++◌,
  inl, inr, is_empty, length, Bool-cases, arith,
}
use dev_cadence.Bytes.{Bytes}
use dev_cadence.Compaction.Types.{MessageRole, Message, Store, is_tool}
use dev_cadence.Compaction.Pruning.{
  Template, pruned_to, stored_ref, prunable, prune_message, add_message, prune_first,
}

-- A message that is open to pruning: an unprotected tool result that is not pruned yet and is no stub.
pub record Open (m : Message) : Type 0 where
  pub unprotected : m.protected ≡ false
  pub a_result : m.role ≡ MessageRole.tool
  pub unpruned : m.is_pruned ≡ false
  pub long : 100 ≤ length m.content

-- Where the full content can be read: at the locator that the message has, or, where it has none, at
-- the one under which the store has just put its content.
pub data Preserved (store : Option Store) (project : Bytes) (m : Message) (ref : Bytes)
    : Type 0 where
  referenced : m.content_ref ≢ [] → ref ≡ m.content_ref → Preserved store project m ref
  put_now :
      (s : Store)
      → m.content_ref ≡ []
      → store ≡ some s
      → s.put_bytes project m.content ≡ some ref
      → Preserved store project m ref

-- Nothing preserves the content: there is no locator, and no store, or one that fails.
pub data Unpreserved (store : Option Store) (project : Bytes) (m : Message) : Type 0 where
  no_store : m.content_ref ≡ [] → store ≡ none → Unpreserved store project m
  store_fails :
      (s : Store)
      → m.content_ref ≡ []
      → store ≡ some s
      → s.put_bytes project m.content ≡ none
      → Unpreserved store project m

-- What stands for a message after pruning, with the number that it adds to the count.
pub data Stands (t : Template) (store : Option Store) (project : Bytes) (m : Message)
    : Message × ℕ → Type 0 where
  closed : ¬ Open m → Stands t store project m (m, 0)
  left : Open m → Unpreserved store project m → Stands t store project m (m, 0)
  replaced :
      (ref : Bytes)
      → Open m
      → Preserved store project m ref
      → Stands t store project m (
        record m { content = t.front ++ (ref ++ t.back); content_ref = ref; is_pruned = true },
        1,
      )

-- The messages one by one, the first `n` of which may be replaced, and how many are.
pub data Replaced (t : Template) (store : Option Store) (project : Bytes)
    : ℕ → List Message → List Message × ℕ → Type 0 where
  rest : {ms : List Message} → Replaced t store project zero ms (ms, 0)
  nothing : {n : ℕ} → Replaced t store project (suc n) [] ([], 0)
  next :
      {n : ℕ} {m : Message} {ms : List Message} {r : Message × ℕ} {rs : List Message × ℕ}
      → Stands t store project m r
      → Replaced t store project n ms rs
      → Replaced t store project (suc n) (m ∷ ms) (add_message r rs)

is_tool-tool : (r : MessageRole) → is_tool r ≡ true → r ≡ MessageRole.tool
is_tool-tool MessageRole.tool h = refl
is_tool-tool MessageRole.system h = cc
is_tool-tool MessageRole.user h = cc
is_tool-tool MessageRole.assistant h = cc
is_tool-tool (MessageRole.unknown_role r) h = cc

is_empty-nil : (xs : Bytes) → is_empty xs ≡ true → xs ≡ []
is_empty-nil [] h = refl
is_empty-nil (x ∷ xs) h = cc

is_empty-false : (xs : Bytes) → is_empty xs ≡ false → xs ≢ []
is_empty-false xs h e = cc

prunable-Open : (m : Message) → prunable m ≡ true → Open m
prunable-Open m h = record {
  unprotected = ground (arith, h);
  a_result = is_tool-tool m.role (ground (arith, h));
  unpruned = ground (arith, h);
  long = ground (arith, h);
}

Open-prunable : (m : Message) → Open m → prunable m ≡ true
Open-prunable m o =
    let a = o.unprotected in
    let b : is_tool m.role ≡ true = rw o.a_result refl in
    let c = o.unpruned in let d = o.long in ground arith

module _ (t : Template) (store : Option Store) (project : Bytes) where
  stored :
      (m : Message) (o : Option Store)
      → store ≡ o
      → Open m
      → m.content_ref ≡ []
      → Stands t store project m (pruned_to t m (stored_ref o project m))
  stored m none e open_m empty = left open_m (no_store empty e)
  stored m (some s) e open_m empty = put (s.put_bytes project m.content) refl
    where
      put :
          (r : Option Bytes)
          → s.put_bytes project m.content ≡ r
          → Stands t store project m (pruned_to t m r)
      put none f = left open_m (store_fails s empty e f)
      put (some ref) f = replaced ref open_m (put_now s empty e f)

  message-Stands : (m : Message) → Stands t store project m (prune_message t store project m)
  unfolding prune_message
  message-Stands m = elim (Bool-cases (prunable m)) [
    | inr e ↦ rw e (closed (λ o. false≢true (sym e ∙ Open-prunable m o)))
    | inl e ↦ rw e (elim (Bool-cases (is_empty m.content_ref)) [
      | inl f ↦ rw f (stored m store refl (prunable-Open m e) (is_empty-nil m.content_ref f))
      | inr f ↦ rw f (
          replaced m.content_ref (prunable-Open m e)
            (referenced (is_empty-false m.content_ref f) refl))
    ])
  ]

  pub prune_first-Replaced :
      (n : ℕ) (ms : List Message) → Replaced t store project n ms (prune_first t store project n ms)
  unfolding prune_first
  prune_first-Replaced zero ms = rest
  prune_first-Replaced (suc n) [] = nothing
  prune_first-Replaced (suc n) (m ∷ ms) = next (message-Stands m) (prune_first-Replaced n ms)
