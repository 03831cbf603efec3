-- ===== src/Raft/Steps.antt =====
-- One entry at a time: applying it succeeds, keeps the answers given before, and is what the journal's
-- record replays.
use Prim.Native.Nat.{compare}
use focal_vector.Base.{
  ℕ, ◌≡◌, refl, none, some, arith, inl, inr, Option-cases, if◌then◌else◌, Bool-cases, is_empty, any,
  ◌||◌,
}
use focal_vector.Order.{is_eq, compare-IsLawful}
use focal_vector.Outcome.{ok, Result-cases}
use focal_vector.Str.{Str, str_cmp, str_cmp-IsLawful}
use focal_vector.Float.{FloatOps}
use focal_vector.Map.{Map, lookup, tree_insert, set_extend}
use focal_vector.Map.Laws.{lookup-tree_insert}
use focal_vector.Collection.{
  Collection, next_sequence, prepare_upsert, apply_prepared_upsert, apply_delete_at,
}
use focal_vector.Raft.{
  OpenRaft, ShardCommand, upsert, delete, ShardResponse, applied, EntryPayload, blank, normal,
  membership, Entry,
}
use focal_vector.Raft.Machine.{
  Dedup, requests_of, command_identity, answered, remember, StateInner, nothing, command,
  members_changed, AppliedRecord, respond, answer, prepare_payload, execute, touched,
  replay_command, replay_payload, replay_record, apply_entry,
}

-- What one answer does to the others.
-- the answers of the client, with the new one
abbrev requests_with : Str × ℕ → ShardResponse → Dedup → Map ℕ ShardResponse
requests_with id response d =
    tree_insert compare id.1 response (requests_of (lookup str_cmp id.0 d))

lookup-remember :
    (client : Str) (id : Str × ℕ) (response : ShardResponse) (d : Dedup)
    → lookup str_cmp client (remember id response d) ≡ (
        if is_eq (str_cmp client id.0)
        then some (requests_with id response d)
        else lookup str_cmp client d)
unfolding remember
lookup-remember client id response d =
    lookup-tree_insert str_cmp-IsLawful id.0 client (requests_with id response d) d

lookup-requests_with :
    (request : ℕ) (id : Str × ℕ) (response : ShardResponse) (d : Dedup)
    → lookup compare request (requests_with id response d) ≡ (
        if is_eq (compare request id.1)
        then some response
        else lookup compare request (requests_of (lookup str_cmp id.0 d)))
lookup-requests_with request id response d =
    lookup-tree_insert compare-IsLawful id.1 request response _

answered-remember :
    (id : Str × ℕ) (response : ShardResponse) (d : Dedup)
    → answered id (remember id response d) ≡ some response
unfolding answered
answered-remember id response d = ground (
  arith,
  lookup-remember id.0 id response d,
  lookup-requests_with id.1 id response d,
  str_cmp-IsLawful.cmp_refl id.0,
  compare-IsLawful.cmp_refl id.1,
)

answered_kept :
    (id j : Str × ℕ) (response old : ShardResponse) (d : Dedup)
    → answered id d ≡ none
    → answered j d ≡ some old
    → answered j (remember id response d) ≡ some old
unfolding answered
answered_kept id j response old d h k = ground (
  arith,
  lookup-remember j.0 id response d,
  lookup-requests_with j.1 id response d,
  str_cmp-IsLawful.eq_of_cmp j.0 id.0,
  compare-IsLawful.eq_of_cmp j.1 id.1,
)

-- A command that is answered as applied can be executed.
execute-respond :
    (fl : FloatOps) (c : Collection) (cmd : ShardCommand)
    → (c' : Collection) × (execute fl c cmd (respond fl c cmd) ≡ ok c')
unfolding execute respond
execute-respond fl c (upsert client request points) = elim (Result-cases (next_sequence c)) [
  | inr (e, f) ↦ (c, rw (f, respond))
  | inl (n, f) ↦ elim (Result-cases (prepare_upsert fl c.config points n)) [
    | inr (e, g) ↦ (c, rw (f, respond, g))
    | inl (ps, g) ↦ (apply_prepared_upsert c ps n, rw (f, respond, g, execute, g))
  ]
]
execute-respond fl c (delete client request ids) = elim (Result-cases (next_sequence c)) [
  | inr (e, f) ↦ (c, rw (f, respond))
  | inl (n, f) ↦ elim (Bool-cases (is_empty ids || any is_empty ids)) [
    | inl b ↦ (c, rw (f, respond, b))
    | inr b ↦ (apply_delete_at c ids n, rw (f, respond, b))
  ]
]

module _ (r : OpenRaft) (fl : FloatOps) where
  -- The answers that were given are still there.
  abbrev pub KeepsAnswers : StateInner r → StateInner r → Type 0
  KeepsAnswers s s' =
      (id : Str × ℕ) (old : ShardResponse)
      → answered id s.dedup ≡ some old
      → answered id s'.dedup ≡ some old

  pub record IsReplayed (s s' : StateInner r) (id : Str × ℕ) (response : ShardResponse)
      : Type 0 where
    pub keeps : KeepsAnswers s s'
    pub answers : answered id s'.dedup ≡ some response

  pub replay_command-answer :
      (s : StateInner r) (cmd : ShardCommand)
      → (s' : StateInner r) × (replay_command r fl s cmd (answer r fl s cmd) ≡ ok s')
        × IsReplayed s s' (command_identity cmd) (answer r fl s cmd)
  unfolding replay_command answer
  replay_command-answer s cmd = elim (Option-cases (answered (command_identity cmd) s.dedup)) [
    | inr (old, e) ↦
        (s, rw (e, replay_command), record { keeps = λ id old h. h; answers = rw (e, answer) })
    | inl e ↦
        let (c, f) = execute-respond fl s.collection cmd in
        let response = respond fl s.collection cmd in
        (
          record s {
            collection = c;
            dirty_ids = set_extend str_cmp s.dirty_ids (touched cmd response);
            dedup = remember (command_identity cmd) response s.dedup;
          },
          rw (e, replay_command, answer, e, f),
          record {
            keeps = λ id old h. answered_kept (command_identity cmd) id response old s.dedup e h;
            answers = rw (e, answer) (answered-remember (command_identity cmd) response s.dedup);
          },
        )
  ]

  pub record IsApplied (s s' : StateInner r) (entry : Entry r) (written : AppliedRecord r)
      (response : ShardResponse) : Type 0 where
    pub steps : apply_entry r fl s entry ≡ ok (s', (written, response))
    pub keeps : KeepsAnswers s s'
    pub last : s'.last_applied ≡ some entry.log_id
    pub replays : replay_record r fl s written ≡ ok s'
    pub same_id : written.log_id ≡ entry.log_id

  -- One round, by the kind of its payload.
  pub apply_payload-ok :
      (s : StateInner r) (log_id : r.LogId) (payload : EntryPayload r)
      → (s' : StateInner r) × (written : AppliedRecord r) × (response : ShardResponse) × IsApplied s
          s'
          (record { log_id = log_id; payload = payload })
          written
          response
  unfolding apply_entry replay_record prepare_payload replay_payload
  apply_payload-ok s log_id blank = (
    record s { last_applied = some log_id },
    record { log_id = log_id; payload = nothing },
    applied s.collection.sequence,
    record { steps = refl; keeps = λ id old h. h; last = refl; replays = refl; same_id = refl },
  )
  apply_payload-ok s log_id (membership m) = (
    record s { members = r.stored (some log_id) m; last_applied = some log_id },
    record { log_id = log_id; payload = members_changed m },
    applied s.collection.sequence,
    record { steps = refl; keeps = λ id old h. h; last = refl; replays = refl; same_id = refl },
  )
  apply_payload-ok s log_id (normal cmd) =
      let (s', e, h) = replay_command-answer s cmd in
      (
        record s' { last_applied = some log_id },
        record { log_id = log_id; payload = command cmd (answer r fl s cmd) },
        answer r fl s cmd,
        record {
          steps = rw (e, replay_command, answer);
          keeps = h.keeps;
          last = refl;
          replays = rw (e, replay_command, answer);
          same_id = refl;
        },
      )
