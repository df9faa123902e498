-- ===== src/Sniffer/Captures.antt =====
-- The captures of a write: where they lie, and that the outputs follow the writes.
use tssniff.Prelude.{ℕ, ◌+◌, ◌^◌, ◌≤◌, ◌<◌, ◌≡◌, refl, subst, List, [], ◌∷◌, arith, length}
use tssniff.Events.{CaptureRange, WriteEvent, ObservedWrite}
use tssniff.Scanner.{TsChunk, TsScanner}
use tssniff.Scanner.Chunks.{buffer_end, AreChunksOf}
use tssniff.Scanner.Feed.{IsValid, looked_at, buffer_end-looked_at}
use tssniff.Scanner.Verdict.{feed-IsValid, feed-AreChunksOf}
use tssniff.Sniffer.{captures_of, sniff, sniff_all}

-- Captures of the write `seq`: nonempty, one behind the other, all within `[lo, hi)`.
abbrev pub AreCaptures : ℕ → ℕ → ℕ → List CaptureRange → Type 0
AreCaptures seq lo hi [] = Unit {0}
AreCaptures seq lo hi (c ∷ cs) =
    (c.seq ≡ seq) × (lo ≤ c.start) × (c.start < c.end) × (c.end ≤ hi) × AreCaptures seq c.end hi cs

captures_of-AreCaptures :
    (s : TsScanner) (seq lo : ℕ) (cs : List TsChunk)
    → AreChunksOf s lo cs
    → AreCaptures seq lo (buffer_end s) (captures_of seq cs)
unfolding captures_of
captures_of-AreCaptures s seq lo [] h = tt
captures_of-AreCaptures s seq lo (c ∷ cs) (l, v, r) = (
  refl,
  l,
  omega (arith, v.width, v.size, v.some_packets),
  v.inside,
  captures_of-AreCaptures s seq c.end cs r,
)

pub sniff-AreCaptures :
    (s : TsScanner) (ev : WriteEvent)
    → IsValid s
    → ev.offset + length ev.bytes < 2 ^ 64
    → AreCaptures ev.seq
        (looked_at s ev.offset ev.bytes).buffer_start
        (ev.offset + length ev.bytes)
        (sniff s ev).0.captures
unfolding sniff
sniff-AreCaptures s ev v w =
    subst
      (λ hi.
        AreCaptures ev.seq (looked_at s ev.offset ev.bytes).buffer_start hi (sniff s ev).0.captures)
      (buffer_end-looked_at s ev.offset ev.bytes v w)
      (captures_of-AreCaptures (looked_at s ev.offset ev.bytes) ev.seq _ _
        (feed-AreChunksOf s ev.offset ev.bytes v w))

-- The physical ranges of all writes stay below the limit of the addresses.
abbrev pub AllFit : List WriteEvent → Type 0
AllFit [] = Unit {0}
AllFit (e ∷ es) = (e.offset + length e.bytes < 2 ^ 64) × AllFit es

-- Each output belongs to a write of the list, in the order of the list, and its captures carry the
-- number of the write and end where the write ends or before.
abbrev pub AreOutputs : List WriteEvent → List ObservedWrite → Type 0
AreOutputs [] [] = Unit {0}
AreOutputs [] (o ∷ os) = ⊥
AreOutputs (e ∷ es) [] = ⊥
AreOutputs (e ∷ es) (o ∷ os) =
    (o.event ≡ e) × AreCaptures e.seq 0 (e.offset + length e.bytes) o.captures × AreOutputs es os

AreCaptures-mono :
    (seq lo lo' hi : ℕ) (cs : List CaptureRange)
    → lo' ≤ lo
    → AreCaptures seq lo hi cs
    → AreCaptures seq lo' hi cs
AreCaptures-mono seq lo lo' hi [] h a = tt
AreCaptures-mono seq lo lo' hi (c ∷ cs) h (e, l, k, m, r) = (e, omega arith, k, m, r)

sniff_event : (s : TsScanner) (ev : WriteEvent) → (sniff s ev).0.event ≡ ev
unfolding sniff
sniff_event s ev = refl

sniff-IsValid :
    (s : TsScanner) (ev : WriteEvent)
    → IsValid s
    → ev.offset + length ev.bytes < 2 ^ 64
    → IsValid (sniff s ev).2
unfolding sniff
sniff-IsValid s ev v w = feed-IsValid s ev.offset ev.bytes v w

-- From a valid scanner and for writes below the address limit, the sniffer gives one output for
-- each write in the order of the writes; the captures of an output carry the number of the
-- write, are nonempty, stand one behind the other and end where the write ends or before.
pub sniff_all-AreOutputs :
    (s : TsScanner) (es : List WriteEvent)
    → IsValid s
    → AllFit es
    → AreOutputs es (sniff_all s es).0
unfolding sniff_all
sniff_all-AreOutputs s [] v w = tt
sniff_all-AreOutputs s (e ∷ es) v (w, ws) = (
  sniff_event s e,
  AreCaptures-mono e.seq _ 0 _ (sniff s e).0.captures (omega arith) (sniff-AreCaptures s e v w),
  sniff_all-AreOutputs (sniff s e).2 es (sniff-IsValid s e v w) ws,
)
