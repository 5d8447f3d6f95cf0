-- ===== src/Source/Reader/Verdicts.antt =====
-- What `read_complete` vouches for: its offset, its verdict, its reason, its errors and its time.
use pulse_narrator.Prelude.{
  ℕ, ◌<◌, ◌≡◌, ◌⊎◌, ◌↔◌, refl, sym, ◌∙◌, String, List, Option, none, some, arith, inl, inr, lt→ltb,
  le→ltb_false,
}
use pulse_narrator.Prelude.Results.{Result, ok, err, Result-cases}
use mathlib.Core.Path.{subst}
use native.Mathlib.Decide.{dec_lt}
use pulse_narrator.System.{Os, IoError}
use pulse_narrator.Core.Source.{ProbeOutcome, truncated, TurnRead}
use pulse_narrator.Source.Error.{SourceError, open_failed, read_failed}
use pulse_narrator.Source.Probe.{Json}
use pulse_narrator.Source.Settle.{
  SettleOutcome, stable, at_bound, size_of, file_size, settle, default_settle_bound,
}
use pulse_narrator.Source.Settle.Steady.{settle-Vouched}
use pulse_narrator.Source.Reader.{
  truncated_read, verdict_of, summarise, capped, read_settled, read_complete,
}

module _ (os : Os) (json : Json) (hash : List ℕ → ℕ) (path : String) where
  open os use {World}

  -- The answer of the settle window, and the world after it.
  abbrev pub window : World → Result SourceError SettleOutcome × World
  window = settle os path default_settle_bound none

  -- Where a successful read of a file that is not shorter than before came from.
  pub record Settled (w : World) (p : ProbeOutcome) (r : TurnRead) : Type 0 where
    pub outcome : SettleOutcome
    pub bytes : List ℕ
    pub done : (window w).0 ≡ ok outcome
    pub content : (os.read path (window w).1).0 ≡ ok bytes
    pub summary :
        ◌≡◌ {A = ProbeOutcome × TurnRead}
          (p, r)
          (summarise os json hash outcome (capped (size_of outcome) bytes))

  -- A read ends with the settle window, if that failed, and else with the reading of the bytes.
  pub read_settled_after :
      (w : World)
      → ((read_settled os json hash path w).1 ≡ (window w).1)
        ⊎ ((read_settled os json hash path w).1 ≡ (os.read path (window w).1).1)
  unfolding read_settled
  read_settled_after w = elim (Result-cases (window w).0) [
    | inr (e, gone) ↦ inl (rw gone refl)
    | inl (outcome, done) ↦ elim (Result-cases (os.read path (window w).1).0) [
      | inr (e, gone) ↦ inr (rw (done, gone) refl)
      | inl (bytes, got) ↦ inr (rw (done, got) refl)
    ]
  ]

  pub Settled-after :
      {w : World} {p : ProbeOutcome} {r : TurnRead}
      → Settled w p r
      → (read_settled os json hash path w).1 ≡ (os.read path (window w).1).1
  unfolding read_settled
  Settled-after s = rw (s.done, s.content) refl

  pub read_settled-Settled :
      (w : World) (p : ProbeOutcome) (r : TurnRead)
      → (read_settled os json hash path w).0 ≡ ok (p, r)
      → Settled w p r
  unfolding read_settled
  read_settled-Settled w p r h = elim (Result-cases (window w).0) [
    | inr (e, gone) ↦ absurd (ground arith)
    | inl (outcome, done) ↦ elim (Result-cases (os.read path (window w).1).0) [
      | inr (e, gone) ↦ absurd (ground arith)
      | inl (bytes, got) ↦ record {
        outcome = outcome;
        bytes = bytes;
        done = done;
        content = got;
        summary = cc (rw (done, got) at h);
      }
    ]
  ]

  -- An error is a failed open or a failed read of this path: bad lines never fail a read.
  abbrev pub IsIoFailure : SourceError → Type 0
  IsIoFailure e = (x : IoError) × ((e ≡ open_failed path x) ⊎ (e ≡ read_failed path x))

  file_size_failure : (w : World) (e : SourceError) → file_size os path w ≡ err e → IsIoFailure e
  unfolding file_size
  file_size_failure w e h = elim (Result-cases (os.metadata_len path w)) [
    | inl (size, got) ↦ absurd (ground arith)
    | inr (x, gone) ↦ (x, inl (ground arith))
  ]

  read_settled_failure :
      (w : World) (e : SourceError) → (read_settled os json hash path w).0 ≡ err e → IsIoFailure e
  unfolding read_settled
  read_settled_failure w e h = elim (Result-cases (window w).0) [
    | inr (x, gone) ↦
        let same : x ≡ e = cc (rw gone at h) in
        subst IsIoFailure same (
          file_size_failure (window w).1 x
            (rw gone at (settle-Vouched os path default_settle_bound w)))
    | inl (outcome, done) ↦ elim (Result-cases (os.read path (window w).1).0) [
      | inr (x, gone) ↦ (x, inr (cc (rw (done, gone) at h)))
      | inl (bytes, got) ↦ absurd (ground arith)
    ]
  ]

  -- The file is shorter than what was read of it before.
  abbrev pub Shrunk : Option ℕ → World → ℕ → Type 0
  Shrunk last w current =
      (prior : ℕ) × (last ≡ some prior) × (file_size os path w ≡ ok current) × (current < prior)

  -- The three ways of a read.
  pub read_complete-cases :
      (last : Option ℕ) (w : World)
      → ((read_complete os json hash path last w ≡ read_settled os json hash path w)
          × ((current : ℕ) → ¬ Shrunk last w current))
        ⊎ ((e : SourceError) × (file_size os path w ≡ err e)
            × (read_complete os json hash path last w ≡ (err e, w)))
        ⊎ ((current : ℕ) × Shrunk last w current
            × (read_complete os json hash path last w ≡ (ok (truncated_read current), w)))
  unfolding read_complete
  read_complete-cases none w = inl (refl, λ current (prior, e, s, l). cc)
  read_complete-cases (some prior) w = elim (Result-cases (file_size os path w)) [
    | inr (e, gone) ↦ inr (inl (e, gone, rw gone))
    | inl (current, seen) ↦ elim (dec_lt current prior) [
      | yes less ↦ inr (inr (current, (prior, refl, seen, less), rw (seen, lt→ltb _ _ less)))
      | no whole ↦
          inl (rw (seen, le→ltb_false current prior (omega arith)), λ c (p, e, s, l). ground arith)
    ]
  ]

  -- Every error is a failure to open or to read this path.
  pub read_complete_failure :
      (last : Option ℕ) (w : World) (e : SourceError)
      → (read_complete os json hash path last w).0 ≡ err e
      → IsIoFailure e
  read_complete_failure last w e h = elim (read_complete-cases last w) [
    | inl (whole, not_shrunk) ↦ read_settled_failure w e (rw whole at h)
    | inr (inl (x, gone, failed)) ↦
        let same : x ≡ e = cc (rw failed at h) in
        subst IsIoFailure same (file_size_failure w x gone)
    | inr (inr (current, shrunk, cut)) ↦ absurd (cc (rw cut at h))
  ]

  verdict_of-ne-truncated : (o : SettleOutcome) → ¬ (verdict_of o ≡ truncated)
  unfolding verdict_of
  verdict_of-ne-truncated (stable size) e = cc
  verdict_of-ne-truncated (at_bound size) e = cc

  pub Settled-verdict :
      {w : World} {p : ProbeOutcome} {r : TurnRead} (s : Settled w p r)
      → r.verdict ≡ verdict_of s.outcome
  unfolding summarise
  Settled-verdict s = cc s.summary

  -- The verdict of a read that succeeds is `truncated` exactly if the file is shorter, when the read
  -- begins, than the offset of the last read. A file that is cut later, within the settle window or
  -- before its bytes are read, is not reported as truncated.
  pub read_complete_truncated_iff :
      (last : Option ℕ) (w : World) (p : ProbeOutcome) (r : TurnRead)
      → (read_complete os json hash path last w).0 ≡ ok (p, r)
      → (r.verdict ≡ truncated) ↔ ((current : ℕ) × Shrunk last w current)
  unfolding truncated_read
  read_complete_truncated_iff last w p r h = elim (read_complete-cases last w) [
    | inl (whole, not_shrunk) ↦
        let s : Settled w p r = read_settled-Settled w p r (rw whole at h) in
        (
          λ t. absurd (verdict_of-ne-truncated s.outcome (sym (Settled-verdict s) ∙ t)),
          λ (current, shrunk). absurd (not_shrunk current shrunk),
        )
    | inr (inl (x, gone, failed)) ↦ absurd (cc (rw failed at h))
    | inr (inr (current, shrunk, cut)) ↦ (λ t. (current, shrunk), λ c. cc (rw cut at h))
  ]
