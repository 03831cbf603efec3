-- ===== src/Wal/Replay.antt =====
-- Recovery against the list of the payloads that were appended.
use focal_vector.Base.{
  ℕ, zero, suc, ◌+◌, ◌≤◌, ◌<◌, ◌≡◌, ◌≢◌, sym, ap, ◌∙◌, none, some, List, [], ◌∷◌, ◌++◌, length,
  take, arith, All, append_assoc, length-append, inl, inr,
}
use focal_vector.Outcome.{Result, ok, err, Result-cases}
use focal_vector.Str.{str_cmp}
use focal_vector.Float.{FloatOps}
use focal_vector.Map.{set_extend}
use focal_vector.Collection.{Collection}
use focal_vector.Wal.{
  max_frame_bytes, frame, scan_frame, apply_payload, Recovered, recover_frames, recover, stop,
}
use focal_vector.Wal.Frames.{
  length-frame, scan_frame-frame, scan_frame-torn, Scanned-cases, stops, refuses, finds,
  scan_frame-ok,
}

-- The log after appending each payload in turn.
unfoldable pub log_of : List (List ℕ) → List ℕ
log_of [] = []
log_of (p ∷ ps) = frame p ++ log_of ps

module _ (fl : FloatOps) where
  -- What the recovery of a list of payloads comes to, without bytes or fuel.
  unfoldable pub replay : Recovered → List (List ℕ) → Result Recovered
  replay state [] = ok state
  replay state (p ∷ ps) = elim (apply_payload fl state.collection p) [
    | err e ↦ err e
    | ok (c, ids) ↦
        replay
          (record {
            collection = c;
            dirty_ids = set_extend str_cmp state.dirty_ids ids;
            kept = state.kept + (8 + (length p + 4));
          })
          ps
  ]

  recover_frames-replay :
      (fuel : ℕ) (state : Recovered) (ps : List (List ℕ)) (tail : List ℕ)
      → All (λ p. length p ≤ max_frame_bytes) ps
      → ((k : ℕ) → scan_frame k tail ≡ stop)
      → length (log_of ps) < fuel
      → recover_frames fl fuel state (log_of ps ++ tail) ≡ some (replay state ps)
  unfolding log_of replay recover_frames
  recover_frames-replay zero state ps tail a torn h = ground (arith, h)
  recover_frames-replay (suc fuel) state [] tail a torn h = rw (torn state.kept, recover_frames)
  recover_frames-replay (suc fuel) state (p ∷ ps) tail a torn h =
      let rest = log_of ps ++ tail in
      rw
        (
          append_assoc (frame p) (log_of ps) tail,
          scan_frame-frame state.kept p rest a.0,
          recover_frames,
        )
        (elim (Result-cases (apply_payload fl state.collection p)) [
          | inr (e, f) ↦ rw (f, recover_frames, replay)
          | inl (r, f) ↦
              rw (f, recover_frames, replay)
                (recover_frames-replay fuel _ ps tail a.1 torn
                  (omega (arith, h, length-append (frame p) (log_of ps), length-frame p)))
        ])

  -- Recovering a log to which whole payloads were appended, each within the size limit, and then a
  -- strict prefix of one more frame, applies exactly the whole payloads in their order, with the result
  -- of the first that fails; it does not run out of fuel.
  pub recover-eq-replay :
      (c : Collection) (ps : List (List ℕ)) (last : List ℕ) (n : ℕ)
      → All (λ p. length p ≤ max_frame_bytes) ps
      → length last ≤ max_frame_bytes
      → n < length (frame last)
      → recover fl c (log_of ps ++ take n (frame last))
        ≡ some (replay (record { collection = c; dirty_ids = []; kept = 0 }) ps)
  unfolding recover
  recover-eq-replay c ps last n a b h =
      recover_frames-replay (suc (length (log_of ps ++ take n (frame last)))) _ ps _ a
        (λ k. scan_frame-torn k n last b h)
        (omega (arith, length-append (log_of ps) (take n (frame last))))

  -- A replay that succeeds keeps the whole frames and nothing of what follows them.
  replay-kept :
      (ps : List (List ℕ)) (state final : Recovered)
      → replay state ps ≡ ok final
      → final.kept ≡ state.kept + length (log_of ps)
  unfolding replay log_of
  replay-kept [] state final h =
      let e : state ≡ final = cc in ap (λ (s : Recovered). s.kept) (sym e) ∙ omega arith
  replay-kept (p ∷ ps) state final h = elim (Result-cases (apply_payload fl state.collection p)) [
    | inr (e, f) ↦ let bad = rw (f, replay) at h in cc
    | inl (r, f) ↦
        let good = rw (f, replay) at h in
        replay-kept ps _ final good
        ∙ omega (arith, length-append (frame p) (log_of ps), length-frame p)
  ]

  recover_frames_total :
      (fuel : ℕ) (state : Recovered) (file : List ℕ)
      → length file < fuel
      → recover_frames fl fuel state file ≢ none
  unfolding recover_frames
  recover_frames_total zero state file h = ground (arith, h)
  recover_frames_total (suc fuel) state file h = elim (Scanned-cases (scan_frame state.kept file)) [
    | stops e ↦ rw (e, recover_frames) (λ x. cc)
    | refuses r e ↦ rw (e, recover_frames) (λ x. cc)
    | finds p rest e ↦
        rw (e, recover_frames)
          (elim (Result-cases (apply_payload fl state.collection p)) [
            | inr (x, f) ↦ rw (f, recover_frames) (λ x. cc)
            | inl (r, f) ↦
                rw (f, recover_frames)
                  (recover_frames_total fuel _ rest
                    (omega (arith, h, scan_frame-ok state.kept file p rest e)))
          ])
  ]

  -- Recovery of any bytes whatever ends.
  pub recover_total : (c : Collection) (wal : List ℕ) → recover fl c wal ≢ none
  unfolding recover
  recover_total c wal = recover_frames_total (suc (length wal)) _ wal (omega arith)
