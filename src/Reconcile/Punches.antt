-- ===== src/Reconcile/Punches.antt =====
-- Which bytes are punched: those of the captures that are known to be file data, and no others.
use tssniff.Prelude.{
  ℕ, zero, suc, ◌≡◌, refl, ◌∙◌, Bool, true, false, ◌&&◌, ◌||◌, List, [], ◌∷◌, ◌++◌, arith, ltb, leb,
  get_or, inl, inr, Bool-cases,
}
use tssniff.Ranges.{ByteRange, max_u64, min_u64}
use tssniff.Ranges.Points.{holds, covers}
use tssniff.Events.{CaptureRange, PunchRequest}
use tssniff.Journal.{Ring, no_capture, overlaps, for_overlap}
use tssniff.Journal.History.{Holds}
use tssniff.Journal.Overlap.{meeting, for_overlap-meeting}
use tssniff.Reconcile.{
  submit_punch, reconcile_range, reconcile_capture, punch_capture, punch_captures, punch_ranges,
}

abbrev pub in_capture : ℕ → CaptureRange → Bool
in_capture x c = leb c.start x && ltb x c.end

-- Whether some request punches the byte at `x`.
abbrev pub punched : ℕ → List PunchRequest → Bool
punched x [] = false
punched x (p ∷ ps) = (leb p.start x && ltb x p.end) || punched x ps

punched-append :
    (x : ℕ) (ps qs : List PunchRequest) → punched x (ps ++ qs) ≡ (punched x ps || punched x qs)
punched-append x [] qs = refl
punched-append x (p ∷ ps) qs = ground (arith, punched-append x ps qs)

punched-reconcile_range :
    (x : ℕ) (c : CaptureRange) (r : ByteRange)
    → punched x (reconcile_range c r) ≡ (in_capture x c && holds x r)
unfolding reconcile_range submit_punch max_u64 min_u64
punched-reconcile_range x c r = ground arith

-- For a new capture the reconciler requests a punch of a byte exactly if the capture has it and
-- one of the known data ranges does.
pub punched-reconcile_capture :
    (x : ℕ) (c : CaptureRange) (known : List ByteRange)
    → punched x (reconcile_capture c known) ≡ (in_capture x c && covers x known)
unfolding reconcile_capture
punched-reconcile_capture x c [] = ground arith
punched-reconcile_capture x c (r ∷ rs) =
    punched-append x (reconcile_range c r) (reconcile_capture c rs)
    ∙ rw (punched-reconcile_range x c r, punched-reconcile_capture x c rs) (ground arith)

punched-punch_capture :
    (x : ℕ) (r : ByteRange) (c : CaptureRange)
    → punched x (punch_capture r c) ≡ (in_capture x c && holds x r)
unfolding punch_capture submit_punch max_u64 min_u64
punched-punch_capture x r c = ground arith

-- Whether some of the latest `n` captures holds the byte at `x`.
abbrev pub captured : ℕ → List CaptureRange → ℕ → Bool
captured x hist zero = false
captured x hist (suc n) = captured x hist n || in_capture x (get_or hist n no_capture)

-- A capture that does not meet a range has none of its bytes.
apart :
    (x : ℕ) (r : ByteRange) (c : CaptureRange)
    → overlaps r.start r.end c ≡ false
    → (in_capture x c && holds x r) ≡ false
unfolding overlaps
apart x r c e = ground arith

-- Of the captures that meet a range, those that hold one of its bytes are all that do.
punched-punch_captures :
    (x : ℕ) (r : ByteRange) (hist : List CaptureRange) (n : ℕ)
    → punched x (punch_captures r (meeting r.start r.end hist n)) ≡ (captured x hist n && holds x r)
unfolding punch_captures
punched-punch_captures x r hist zero = ground arith
punched-punch_captures x r hist (suc n) =
    let c = get_or hist n no_capture in
    let ih = punched-punch_captures x r hist n in
    elim (Bool-cases (overlaps r.start r.end c)) [
      | inl e ↦
          rw
            (
              e,
              punched-append x (punch_capture r c)
                  (punch_captures r (meeting r.start r.end hist n)),
              punched-punch_capture x r c,
              ih,
            )
            (ground arith)
      | inr e ↦ rw (e, ih) (ground (arith, apart x r c e))
    ]

covers-empty : (x : ℕ) (r : ByteRange) → leb r.end r.start ≡ true → holds x r ≡ false
covers-empty x r e = ground arith

-- For the new ranges of an MFT write the reconciler requests a punch of a byte exactly if one
-- of the ranges has it and so does one of the captures that the journal, being that of the
-- given history, still holds.
pub punched-punch_ranges :
    (x : ℕ) (j : Ring CaptureRange) (hist : List CaptureRange) (rs : List ByteRange)
    → Holds no_capture j hist
    → punched x (punch_ranges j rs) ≡ (captured x hist j.count && covers x rs)
unfolding punch_ranges punch_captures
punched-punch_ranges x j hist [] v = ground arith
punched-punch_ranges x j hist (r ∷ rs) v =
    punched-append x (punch_captures r (for_overlap j r.start r.end)) (punch_ranges j rs)
    ∙ rw (for_overlap-meeting j hist v r.start r.end, punched-punch_ranges x j hist rs v)
        (elim (Bool-cases (leb r.end r.start)) [
          | inl e ↦ rw (e, covers-empty x r e) refl
          | inr e ↦ rw (e, punched-punch_captures x r hist j.count) (ground arith)
        ])
