-- ===== src/Source/Reader/Offsets.antt =====
-- Where the next read resumes and what the reason is about.
use pulse_narrator.Prelude.{ℕ, ◌≡◌, ◌⊎◌, ap, ◌∙◌, String, List, Option, inl, inr}
use pulse_narrator.Prelude.Results.{Result, ok}
use pulse_narrator.System.{Os, IoError}
use pulse_narrator.Core.Source.{
  ProbeOutcome, ReadVerdict, settled, settled_at_bound, truncated, TurnRead,
}
use pulse_narrator.Source.Probe.{Json}
use pulse_narrator.Source.Settle.{
  SettleOutcome, stable, at_bound, size_of, file_size, default_settle_bound,
}
use pulse_narrator.Source.Settle.Steady.{Held, Vouched, settle-Vouched}
use pulse_narrator.Source.Lines.{split_lines}
use pulse_narrator.Source.Lines.Reasons.{first_fault, tally_lines_reason}
use pulse_narrator.Source.Reader.{truncated_read, verdict_of, summarise, capped, read_complete}
use pulse_narrator.Source.Reader.Verdicts.{
  Settled, window, Settled-after, read_settled-Settled, read_complete-cases,
  read_complete_truncated_iff,
}

module _ (os : Os) (json : Json) (hash : List ℕ → ℕ) (path : String) where
  open os use {World}

  -- What a verdict says of an offset in the world of the last poll.
  abbrev pub Backed : ReadVerdict → ℕ → World → Type 0
  Backed settled size w = Held os path size 3 w
  Backed settled_at_bound size w = file_size os path w ≡ ok size
  Backed truncated size w = file_size os path w ≡ ok size

  Backed-outcome :
      (o : SettleOutcome) (w : World)
      → Vouched os path default_settle_bound (ok o) w
      → Backed (verdict_of o) (size_of o) w
  unfolding verdict_of size_of
  Backed-outcome (stable size) w v = v
  Backed-outcome (at_bound size) w v = v

  -- A reading by its parts.
  pair :
      {a : Result IoError (List ℕ) × World} {bytes : List ℕ} {w : World}
      → a.0 ≡ ok bytes
      → w ≡ a.1
      → a ≡ (ok bytes, w)
  pair read after = cc (read, after)

  Settled-Backed :
      {w : World} {p : ProbeOutcome} {r : TurnRead}
      → Settled os json hash path w p r
      → Backed r.verdict r.read_offset (window os json hash path w).1
  unfolding summarise
  Settled-Backed {w} {r} s =
      let v : r.verdict ≡ verdict_of s.outcome = cc s.summary in
      let o : r.read_offset ≡ size_of s.outcome = cc s.summary in
      rw (v, o)
        (Backed-outcome s.outcome _ (rw s.done at (settle-Vouched os path default_settle_bound w)))

  -- The offset of a read that succeeds is the size of the file at the last poll: when the read begins
  -- if the file was cut, and else when the settle window ends, after four polls in a row that saw this
  -- size if the verdict is settled. What other programs do to the file between that poll and the
  -- reading of its bytes does not move the offset.
  pub read_complete-Backed :
      (last : Option ℕ) (w : World) (p : ProbeOutcome) (r : TurnRead)
      → (read_complete os json hash path last w).0 ≡ ok (p, r)
      → ((r.verdict ≡ truncated)
          × Backed r.verdict r.read_offset w
          × ((read_complete os json hash path last w).1 ≡ w))
        ⊎ (¬ (r.verdict ≡ truncated)
            × Backed r.verdict r.read_offset (window os json hash path w).1
            × ((read_complete os json hash path last w).1
                ≡ (os.read path (window os json hash path w).1).1))
  unfolding truncated_read
  read_complete-Backed last w p r h = elim (read_complete-cases os json hash path last w) [
    | inl (whole, not_shrunk) ↦
        let s : Settled os json hash path w p r =
          read_settled-Settled os json hash path w p r (rw whole at h) in
        inr (
          λ t.
              let (current, shrunk) =
                (read_complete_truncated_iff os json hash path last w p r h).0 t in
              not_shrunk current shrunk,
          Settled-Backed s,
          ap (λ a. a.1) whole ∙ Settled-after os json hash path s,
        )
    | inr (inl (x, gone, failed)) ↦ absurd (cc (rw failed at h))
    | inr (inr (current, (prior, e, seen, less), cut)) ↦
        let same : ok (truncated_read current) ≡ ok (p, r) = rw cut at h in
        let v : r.verdict ≡ truncated = cc same in
        let o : r.read_offset ≡ current = cc same in inl (v, rw (v, o) seen, ap (λ a. a.1) cut)
  ]

  -- The reason of a read that succeeds is the fault of the first faulty line among the bytes up to the
  -- offset, of those that were read after the settle window, unless the file was cut, which is no
  -- drift.
  pub read_complete_reason :
      (last : Option ℕ) (w : World) (p : ProbeOutcome) (r : TurnRead)
      → (read_complete os json hash path last w).0 ≡ ok (p, r)
      → ((r.verdict ≡ truncated) × (p ≡ ProbeOutcome.ok))
        ⊎ ((bytes : List ℕ) × (os.read path (window os json hash path w).1
              ≡ (ok bytes, (read_complete os json hash path last w).1))
            × (p ≡ first_fault json 0 (split_lines (capped r.read_offset bytes))))
  unfolding truncated_read summarise
  read_complete_reason last w p r h = elim (read_complete-cases os json hash path last w) [
    | inl (whole, not_shrunk) ↦
        let s : Settled os json hash path w p r =
          read_settled-Settled os json hash path w p r (rw whole at h) in
        let o : r.read_offset ≡ size_of s.outcome = cc s.summary in
        inr (
          s.bytes,
          pair s.content (ap (λ a. a.1) whole ∙ Settled-after os json hash path s),
          rw o (cc (s.summary, tally_lines_reason json (capped (size_of s.outcome) s.bytes))),
        )
    | inr (inl (x, gone, failed)) ↦ absurd (cc (rw failed at h))
    | inr (inr (current, shrunk, cut)) ↦
        let same : ok (truncated_read current) ≡ ok (p, r) = rw cut at h in inl (cc same, cc same)
  ]
