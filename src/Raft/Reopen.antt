-- ===== src/Raft/Reopen.antt =====
-- Reopening the log of Raft: replaying a journal that the checkpoint already holds changes nothing.
use Prim.Native.Nat.{compare}
use focal_vector.Base.{
  ℕ, ◌+◌, ◌≡◌, refl, ap, ◌∙◌, sym, Option, none, some, List, [], ◌∷◌, ◌++◌, ltb, leb, if◌then◌else◌,
  arith,
}
use focal_vector.Order.{is_eq, compare-IsLawful}
use focal_vector.Map.{Map, lookup, tree_insert}
use focal_vector.Map.Laws.{lookup-tree_insert}
use focal_vector.Collection.Batch.{or_else}
use focal_vector.Raft.{OpenRaft, Entry}
use focal_vector.Raft.Log.{
  JournalRecord, save_vote, save_committed, append, truncate, purge, JournalState, insert_entries,
  below, split_off, apply, recover_journal,
}

-- A value that is overwritten, or not.
abbrev over {ℓ} : {A : Type ℓ} → Option A → A → A
over none a = a
over (some b) a = b

over_twice {ℓ} : {A : Type ℓ} (o : Option A) (a : A) → over o (over o a) ≡ over o a
over_twice none a = refl
over_twice (some b) a = refl

over-or_else {ℓ} : {A : Type ℓ} (o p : Option A) (a : A) → over (or_else o p) a ≡ over o (over p a)
over-or_else none p a = refl
over-or_else (some b) p a = refl

module _ (r : OpenRaft) where
  -- The last entry of an appended batch at the given index.
  last_at : ℕ → List (Entry r) → Option (Entry r)
  last_at k [] = none
  last_at k (e ∷ es) =
      or_else (last_at k es) (if is_eq (compare k (r.index e.log_id)) then some e else none)

  -- What a record puts at an index of the log.
  put_at : ℕ → JournalRecord r → Option (Option (Entry r))
  unfolding last_at
  put_at k (append entries) = elim (last_at k entries) [ some e ↦ some (some e) | none ↦ none ]
  put_at k (truncate log_id) = if ltb k (r.index log_id) then none else some none
  put_at k (purge log_id) = if leb (r.index log_id + 1) k then none else some none
  put_at k other = none

  lookup-insert_entries :
      (k : ℕ) (es : List (Entry r)) (m : Map ℕ (Entry r))
      → lookup compare k (insert_entries r es m) ≡ or_else (last_at k es) (lookup compare k m)
  unfolding insert_entries last_at
  lookup-insert_entries k [] m = refl
  lookup-insert_entries k (e ∷ es) m = ground (
    arith,
    lookup-insert_entries k es (tree_insert compare (r.index e.log_id) e m),
    lookup-tree_insert compare-IsLawful (r.index e.log_id) k e m,
  )

  lookup-below :
      (k n : ℕ) (m : Map ℕ (Entry r))
      → lookup compare k (below r n m) ≡ (if ltb k n then lookup compare k m else none)
  unfolding below lookup
  lookup-below k n [] = ground arith
  lookup-below k n (e ∷ m) = ground (arith, lookup-below k n m, compare-IsLawful.eq_of_cmp k e.0)

  lookup-split_off :
      (k n : ℕ) (m : Map ℕ (Entry r))
      → lookup compare k (split_off r n m) ≡ (if leb n k then lookup compare k m else none)
  unfolding split_off lookup
  lookup-split_off k n [] = ground arith
  lookup-split_off k n (e ∷ m) =
      ground (arith, lookup-split_off k n m, compare-IsLawful.eq_of_cmp k e.0)

  lookup-apply :
      (k : ℕ) (s : JournalState r) (x : JournalRecord r)
      → lookup compare k (apply r s x).entries ≡ over (put_at k x) (lookup compare k s.entries)
  unfolding apply put_at
  lookup-apply k s (save_vote v) = refl
  lookup-apply k s (save_committed c) = refl
  lookup-apply k s (append es) = ground (arith, lookup-insert_entries k es s.entries)
  lookup-apply k s (truncate id) = ground (arith, lookup-below k (r.index id) s.entries)
  lookup-apply k s (purge id) = ground (arith, lookup-split_off k (r.index id + 1) s.entries)

  put_vote : JournalRecord r → Option (Option r.Vote)
  put_vote (save_vote v) = some (some v)
  put_vote other = none

  put_committed : JournalRecord r → Option (Option r.LogId)
  put_committed (save_committed c) = some c
  put_committed other = none

  put_purged : JournalRecord r → Option (Option r.LogId)
  put_purged (purge id) = some (some id)
  put_purged other = none

  -- A part of the state that each record overwrites or leaves.
  record IsPart {ℓ} {A : Type ℓ} (f : JournalState r → A) : Type ℓ where
    put : JournalRecord r → Option A
    law : (s : JournalState r) (x : JournalRecord r) → f (apply r s x) ≡ over (put x) (f s)

  module _ {ℓ} {A : Type ℓ} {f : JournalState r → A} (p : IsPart f) where
    put_all : List (JournalRecord r) → Option A
    put_all [] = none
    put_all (x ∷ xs) = or_else (put_all xs) (p.put x)

    part-recover :
        (xs : List (JournalRecord r)) (s : JournalState r)
        → f (recover_journal r xs s) ≡ over (put_all xs) (f s)
    unfolding recover_journal put_all
    part-recover [] s = refl
    part-recover (x ∷ xs) s =
        part-recover xs (apply r s x)
        ∙ ap (over (put_all xs)) (p.law s x)
        ∙ sym (over-or_else (put_all xs) (p.put x) (f s))

    part_twice :
        (xs : List (JournalRecord r)) (s : JournalState r)
        → f (recover_journal r xs (recover_journal r xs s)) ≡ f (recover_journal r xs s)
    part_twice xs s =
        part-recover xs (recover_journal r xs s)
        ∙ ap (over (put_all xs)) (part-recover xs s)
        ∙ over_twice (put_all xs) (f s)
        ∙ sym (part-recover xs s)

  vote-IsPart : IsPart (λ (s : JournalState r). s.vote)
  unfolding apply put_vote
  vote-IsPart = record { put = put_vote; law = λ s x. ground arith }

  committed-IsPart : IsPart (λ (s : JournalState r). s.committed)
  unfolding apply put_committed
  committed-IsPart = record { put = put_committed; law = λ s x. ground arith }

  purged-IsPart : IsPart (λ (s : JournalState r). s.last_purged)
  unfolding apply put_purged
  purged-IsPart = record { put = put_purged; law = λ s x. ground arith }

  entry-IsPart : (k : ℕ) → IsPart (λ (s : JournalState r). lookup compare k s.entries)
  entry-IsPart k = record { put = put_at k; law = lookup-apply k }

  -- Two states that every read of the log takes for the same.
  pub record ReadsSame (s t : JournalState r) : Type 0 where
    pub vote : s.vote ≡ t.vote
    pub committed : s.committed ≡ t.committed
    pub purged : s.last_purged ≡ t.last_purged
    pub entry : (k : ℕ) → lookup compare k s.entries ≡ lookup compare k t.entries

  -- Replaying a journal a second time, on what it has produced, changes nothing: the votes, the commit
  -- index, the purge mark and every entry read as after the first time.
  pub recover_twice :
      (journal : List (JournalRecord r)) (s : JournalState r)
      → ReadsSame
          (recover_journal r journal (recover_journal r journal s))
          (recover_journal r journal s)
  recover_twice journal s = record {
    vote = part_twice vote-IsPart journal s;
    committed = part_twice committed-IsPart journal s;
    purged = part_twice purged-IsPart journal s;
    entry = λ k. part_twice (entry-IsPart k) journal s;
  }

  part_step {ℓ} :
      {A : Type ℓ} {f : JournalState r → A} (p : IsPart f) (s t : JournalState r)
      (x : JournalRecord r)
      → f s ≡ f t
      → f (apply r s x) ≡ f (apply r t x)
  part_step p s t x h = p.law s x ∙ ap (over (p.put x)) h ∙ sym (p.law t x)

  pub apply_same :
      (s t : JournalState r) (x : JournalRecord r)
      → ReadsSame s t
      → ReadsSame (apply r s x) (apply r t x)
  apply_same s t x h = record {
    vote = part_step vote-IsPart s t x h.vote;
    committed = part_step committed-IsPart s t x h.committed;
    purged = part_step purged-IsPart s t x h.purged;
    entry = λ k. part_step (entry-IsPart k) s t x (h.entry k);
  }

  pub recover-snoc :
      (xs : List (JournalRecord r)) (x : JournalRecord r) (s : JournalState r)
      → recover_journal r (xs ++ x ∷ []) s ≡ apply r (recover_journal r xs s) x
  unfolding recover_journal
  recover-snoc [] x s = refl
  recover-snoc (y ∷ xs) x s = recover-snoc xs x (apply r s y)
