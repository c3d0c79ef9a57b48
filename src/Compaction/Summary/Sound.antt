-- ===== src/Compaction/Summary/Sound.antt =====
-- internal/compaction/admission.go: what the second tier leaves of a session.
use mathlib.Core.List.{Memᴰ}
use dev_cadence.Prelude.{
  ℕ, ◌+◌, ◌-◌, ◌/◌, ◌≡◌, sym, ap, ◌∙◌, Bool, true, false, not, Option, some, List, [], ◌∷◌, ◌&&◌,
  ◌||◌, length, is_empty, ltb, if◌then◌else◌, Bool-cases, inl, inr, arith,
}
use dev_cadence.Bytes.{Bytes}
use dev_cadence.Dict.{Dict}
use dev_cadence.Errs.{Result, ok, err}
use dev_cadence.Compaction.Types.{Message, TrajectoryDigest, ExecutionSession, Store}
use dev_cadence.Compaction.Groups.{
  call_ids, assistant_tool_calls, tool_results, validate_atomic_tool_groups,
}
use dev_cadence.Compaction.Digest.{
  Summarizer, validate_evidence_and_authority, format_as_user_message,
}
use dev_cadence.Compaction.Summary.{
  num_eq, find_safe_cutoff, place, propagate, protected_groups, remaining_groups, remaining,
  to_summarize, in_groups, results_kept, with_digest, apply_tier2_summarization, own_all,
  opens_group, group_of,
}
use dev_cadence.Compaction.Admission.Keeps.{either}

-- The messages of a session after the older ones are handed out.
abbrev pub kept_messages : (List (ℕ × ℕ) → List (ℕ × ℕ)) → List Message → List Message
kept_messages order ms =
    let cutoff = find_safe_cutoff order ms (length ms - 2) in
    let placed = place 0 0 [] ms in
    let xs = propagate (protected_groups placed) placed in
    remaining cutoff (remaining_groups cutoff xs) xs

-- The session with a digest, and with the messages that it replaces.
abbrev pub digested : ExecutionSession → TrajectoryDigest → ExecutionSession
digested s d = record s { digest = some d }

abbrev pub with_messages : ExecutionSession → TrajectoryDigest → List Message → ExecutionSession
with_messages s d ms = record s { digest = some d; messages = ms }

module _ (order : List (ℕ × ℕ) → List (ℕ × ℕ)) (render : TrajectoryDigest → Bytes)
    (s : ExecutionSession) where
  abbrev pub summarized_messages : TrajectoryDigest → List Message
  summarized_messages d = format_as_user_message render d ∷ kept_messages order s.messages

  abbrev pub checked : Option Store → TrajectoryDigest → TrajectoryDigest
  checked store answer = validate_evidence_and_authority store s.known_decision_ids answer

  -- What holds of the session, of it with a digest, and of it with a digest and the kept messages where
  -- their tool groups are whole, holds after the second tier.
  module _ (store : Option Store) (P : ExecutionSession → Type 0) (p : P s)
      (unchanged : (answer : TrajectoryDigest) → P (digested s (checked store answer)))
      (replaced : (answer : TrajectoryDigest)
        → validate_atomic_tool_groups (summarized_messages (checked store answer)) ≡ true
        → P (
            with_messages s
              (checked store answer)
              (summarized_messages (checked store answer)))) where
    with_digest-keeps :
        (answer : Result TrajectoryDigest)
        → P (with_digest render store (kept_messages order s.messages) s answer)
    with_digest-keeps (err c) = p
    with_digest-keeps (ok answer) =
        let d = checked store answer in
        let ms = summarized_messages d in
        elim (Bool-cases (validate_atomic_tool_groups ms)) [
          | inr e ↦ rw e (unchanged answer)
          | inl e ↦ rw e (
              either P
                (results_kept (assistant_tool_calls ms) (tool_results s.messages) (tool_results ms))
                (replaced answer e) (unchanged answer))
        ]

    pub apply_tier2_summarization-keeps :
        (z : Summarizer) (limit : ℕ) → P (apply_tier2_summarization order render z store limit s)
    unfolding apply_tier2_summarization
    apply_tier2_summarization-keeps z limit =
        let cutoff = find_safe_cutoff order s.messages (length s.messages - 2) in
        let placed = place 0 0 [] s.messages in
        let xs = propagate (protected_groups placed) placed in
        let older = to_summarize cutoff (remaining_groups cutoff xs) xs in
        either P (ltb (length s.messages) 4) p (
          either P (num_eq cutoff 0) p (
            either P
              (is_empty older || not (validate_atomic_tool_groups (kept_messages order s.messages)))
              p (with_digest-keeps (z s.policy s older (limit / 4)))))

abbrev shielded : Message → Bool → Message
shielded m b = record m { protected = m.protected || b }

still-protected : (m : Message) (b : Bool) → m.protected ≡ true → m ≡ shielded m b
still-protected m b p = ap (λ v. record m { protected = v }) (p ∙ ap (λ v. v || b) (sym p))

taken :
    (c : Bool) {m k : Message} (rest : List Message)
    → c ≡ true
    → m ≡ k
    → Memᴰ m (if c then k ∷ rest else rest)
taken c rest e h = rw e (Memᴰ.head h)

-- A protected message that is no digest stays, whatever the cutoff and the groups.
pub remaining-Mem :
    (m : Message) (cutoff i next : ℕ) (owner : Dict ℕ) (hs gs : List ℕ) (ms : List Message)
    → m.protected ≡ true
    → m.is_digest ≡ false
    → Memᴰ m ms
    → Memᴰ m (remaining cutoff gs (propagate hs (place i next owner ms)))
unfolding remaining propagate place
remaining-Mem m cutoff i next owner hs gs [] p q h = elim h [ ]
remaining-Mem m cutoff i next owner hs gs (k ∷ ms) p q (Memᴰ.head e) =
    let b = in_groups hs (group_of k next owner) in
    let pk = ap (λ n. n.protected) (sym e) ∙ p in
    let qk = ap (λ n. n.is_digest) (sym e) ∙ q in
    taken
      (not k.is_digest
        && (in_groups gs (group_of k next owner) || (not (ltb i cutoff) || (k.protected || b))))
      _ (ground (arith, pk, qk)) (e ∙ still-protected k b pk)
remaining-Mem m cutoff i next owner hs gs (k ∷ ms) p q (Memᴰ.tail h) =
    let rest =
      remaining-Mem m cutoff (i + 1) (if opens_group k then next + 1 else next)
        (if opens_group k then own_all (call_ids k.tool_calls) next owner else owner) hs gs ms p q
        h in
    either (Memᴰ m) _ (Memᴰ.tail rest) rest
