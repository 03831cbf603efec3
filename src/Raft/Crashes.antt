-- ===== src/Raft/Crashes.antt =====
-- What the log of Raft reads as when it is reopened, wherever `write_record` was cut short.
use focal_vector.Base.{refl, ◌∙◌, sym, subst, some, List, [], ◌∷◌, ◌++◌, inl, inr, Bool-cases}
use focal_vector.Raft.{OpenRaft}
use focal_vector.Raft.Log.{
  JournalRecord, JournalState, apply, recover_journal, DurableRaftLog, checkpointed, open_log,
  is_purge, Crash, before_append, after_append, after_checkpoint, no_crash, write_record,
}
use focal_vector.Raft.Reopen.{ReadsSame, recover_twice, apply_same, recover-snoc}

module _ (r : OpenRaft) where
  same_refl : (s : JournalState r) → ReadsSame r s s
  same_refl s = record { vote = refl; committed = refl; purged = refl; entry = λ k. refl }

  same_trans : (s t u : JournalState r) → ReadsSame r s t → ReadsSame r t u → ReadsSame r s u
  same_trans s t u h k = record {
    vote = h.vote ∙ k.vote;
    committed = h.committed ∙ k.committed;
    purged = h.purged ∙ k.purged;
    entry = λ i. h.entry i ∙ k.entry i;
  }

  same_sym : (s t : JournalState r) → ReadsSame r s t → ReadsSame r t s
  same_sym s t h = record {
    vote = sym h.vote;
    committed = sym h.committed;
    purged = sym h.purged;
    entry = λ k. sym (h.entry k);
  }

  recover_same :
      (xs : List (JournalRecord r)) (s t : JournalState r)
      → ReadsSame r s t
      → ReadsSame r (recover_journal r xs s) (recover_journal r xs t)
  unfolding recover_journal
  recover_same [] s t h = h
  recover_same (x ∷ xs) s t h = recover_same xs (apply r s x) (apply r t x) (apply_same r s t x h)

  abbrev pub reopened : DurableRaftLog r → JournalState r
  reopened log = open_log r log.checkpoint log.journal

  -- Reopening reads as the state in memory.
  abbrev pub IsConsistent : DurableRaftLog r → Type 0
  IsConsistent log = ReadsSame r (reopened log) log.state

  -- What must be read after a crash: a record counts from when it is in the journal.
  abbrev pub expected : DurableRaftLog r → JournalRecord r → Crash r → JournalState r
  expected log x before_append = log.state
  expected log x _ = apply r log.state x

  journal_more :
      (log : DurableRaftLog r) (x : JournalRecord r)
      → IsConsistent log
      → ReadsSame r (open_log r log.checkpoint (log.journal ++ x ∷ [])) (apply r log.state x)
  unfolding open_log
  journal_more log x h =
      subst (λ s. ReadsSame r s (apply r log.state x))
        (sym (recover-snoc r log.journal x (checkpointed r log.checkpoint))) (apply_same r _ _ x h)

  -- the checkpoint is written, and the journal is not cut off yet
  checkpoint_more :
      (log : DurableRaftLog r) (x : JournalRecord r)
      → IsConsistent log
      → ReadsSame r
          (open_log r (some (apply r log.state x)) (log.journal ++ x ∷ []))
          (apply r log.state x)
  unfolding open_log
  checkpoint_more log x h =
      let more = log.journal ++ x ∷ [] in
      let base = checkpointed r log.checkpoint in
      let once = journal_more log x h in
      same_trans _ (recover_journal r more (recover_journal r more base)) _
        (recover_same more _ _ (same_sym _ _ once))
        (same_trans _ (recover_journal r more base) _ (recover_twice r more base) once)

  -- Wherever the write of a record is cut short, reopening the log reads as before the record, if it is
  -- not in the journal yet, and as after it, if it is, although a purge may have published its checkpoint
  -- over a journal that is not cut off yet.
  pub write_record_recovers :
      (log : DurableRaftLog r) (x : JournalRecord r) (crash : Crash r)
      → IsConsistent log
      → ReadsSame r (reopened (write_record r log x crash)) (expected log x crash)
  unfolding write_record open_log recover_journal
  write_record_recovers log x before_append h = h
  write_record_recovers log x after_append h = journal_more log x h
  write_record_recovers log x after_checkpoint h = elim (Bool-cases (is_purge r x)) [
    | inl e ↦ rw e (checkpoint_more log x h)
    | inr e ↦ rw e (journal_more log x h)
  ]
  write_record_recovers log x no_crash h = elim (Bool-cases (is_purge r x)) [
    | inl e ↦ rw e (same_refl (apply r log.state x))
    | inr e ↦ rw e (journal_more log x h)
  ]
