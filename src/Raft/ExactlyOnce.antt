-- ===== src/Raft/ExactlyOnce.antt =====
-- What applying entries promises: it succeeds, it answers a repeated command as the first time without
-- executing it, and the journal rebuilds the same state.
use focal_vector.Base.{
  suc, false, ◌≡◌, refl, ap, ◌∙◌, sym, subst, Option, some, List, [], ◌∷◌, length,
}
use focal_vector.Outcome.{ok}
use focal_vector.Float.{FloatOps}
use focal_vector.Raft.{OpenRaft, ShardCommand, ShardResponse, normal, Entry}
use focal_vector.Raft.Machine.{
  command_identity, answered, StateInner, AppliedRecord, command, answer, prepare_payload,
  replay_command, replay_payload, replay_record, apply_entry, apply, is_applied, replay_journal,
}
use focal_vector.Raft.Steps.{KeepsAnswers, apply_payload-ok, replay_command-answer}

module _ (r : OpenRaft) (fl : FloatOps) where
  -- The entries follow what is applied already, each behind the one before it.
  abbrev pub Follows : Option r.LogId → List (Entry r) → Type 0
  Follows last [] = Unit
  Follows last (e ∷ es) = (is_applied r last e.log_id ≡ false) × Follows (some e.log_id) es

  pub record AreApplied (s s' : StateInner r) (entries : List (Entry r))
      (journal : List (AppliedRecord r)) (responses : List ShardResponse) : Type 0 where
    pub steps : apply r fl s entries ≡ ok (s', (journal, responses))
    pub each : length responses ≡ length entries
    pub keeps : KeepsAnswers r fl s s'
    pub replays : Follows s.last_applied entries → replay_journal r fl s journal ≡ ok s'

  -- Applying entries never fails after a record has been written: there is a response to each, no
  -- answer is forgotten, and if the entries follow in the order of the log, replaying the journal on the
  -- state from before gives the state after.
  pub apply_total :
      (entries : List (Entry r)) (s : StateInner r)
      → (s' : StateInner r) × (journal : List (AppliedRecord r)) × (responses : List ShardResponse)
        × AreApplied s s' entries journal responses
  unfolding apply replay_journal
  apply_total [] s =
      (s, [], [], record { steps = refl; each = refl; keeps = λ id old h. h; replays = λ f. refl })
  apply_total (e ∷ entries) s =
      let (s₁, written, response, one) = apply_payload-ok r fl s e.log_id e.payload in
      let (s₂, journal, responses, rest) = apply_total entries s₁ in
      (
        s₂,
        written ∷ journal,
        response ∷ responses,
        record {
          steps = rw (one.steps, rest.steps);
          each = ap suc rest.each;
          keeps = λ id old h. rest.keeps id old (one.keeps id old h);
          replays = λ f.
              rw (ap (is_applied r s.last_applied) one.same_id ∙ f.0, one.replays)
                (rest.replays (subst (λ last. Follows last entries) (sym one.last) f.1));
        },
      )

  -- What an entry leaves when its command was answered before.
  repeat_answered :
      (s : StateInner r) (log_id : r.LogId) (cmd : ShardCommand) (old : ShardResponse)
      → answered (command_identity cmd) s.dedup ≡ some old
      → apply_entry r fl s (record { log_id = log_id; payload = normal cmd })
        ≡ ok (
          record s { last_applied = some log_id },
          (record { log_id = log_id; payload = command cmd old }, old),
        )
  unfolding apply_entry prepare_payload replay_record replay_payload replay_command answer
  repeat_answered s log_id cmd old h = rw (h, answer, replay_command)

  -- A command that is applied, and repeated after any further entries with the same client and request,
  -- is answered as the first time, and the repetition changes nothing but the position in the log: no
  -- point, no sequence, no answer.
  pub exactly_once :
      (s : StateInner r) (first again : r.LogId) (cmd retry : ShardCommand)
      (between : List (Entry r))
      → command_identity retry ≡ command_identity cmd
      → (s₁ : StateInner r) × (written : AppliedRecord r) × (response : ShardResponse)
        × (s₂ : StateInner r) × (journal : List (AppliedRecord r)) × (responses : List
            ShardResponse)
        × (apply_entry r fl s (record { log_id = first; payload = normal cmd })
            ≡ ok (s₁, (written, response)))
        × (apply r fl s₁ between ≡ ok (s₂, (journal, responses)))
        × (apply_entry r fl s₂ (record { log_id = again; payload = normal retry })
            ≡ ok (
              record s₂ { last_applied = some again },
              (record { log_id = again; payload = command retry response }, response),
            ))
  unfolding apply_entry prepare_payload replay_record replay_payload
  exactly_once s first again cmd retry between same =
      let (s', e, one) = replay_command-answer r fl s cmd in
      let s₁ : StateInner r = record s' { last_applied = some first } in
      let (s₂, journal, responses, rest) = apply_total between s₁ in
      let response = answer r fl s cmd in
      let known = rest.keeps (command_identity cmd) response one.answers in
      (
        s₁,
        record { log_id = first; payload = command cmd response },
        response,
        s₂,
        journal,
        responses,
        rw e,
        rest.steps,
        repeat_answered s₂ again retry response (ap (λ id. answered id s₂.dedup) same ∙ known),
      )
