-- ===== src/Sniffer.antt =====
-- sniffer.go: one round of `run`, from a write to what goes to the hub and to the dispatcher.
pub mod Captures
mod Tests
use tssniff.Prelude.{ℕ, List, [], ◌∷◌}
use tssniff.Events.{CaptureRange, WriteEvent, ObservedWrite}
use tssniff.Scanner.{TsChunk, TsScanner, feed}

-- The loop over the chunks: the captures that it appends.
pub captures_of : ℕ → List TsChunk → List CaptureRange
captures_of seq [] = []
captures_of seq (c ∷ cs) = record { seq = seq; start = c.start; end = c.end } ∷ captures_of seq cs

-- What the loop hands to `Broadcast`.
pub broadcasts : List TsChunk → List (List ℕ)
broadcasts [] = []
broadcasts (c ∷ cs) = c.bytes ∷ broadcasts cs

-- The body of the loop of `run`.
pub sniff : TsScanner → WriteEvent → ObservedWrite × List (List ℕ) × TsScanner
sniff s ev =
    let (chunks, is_mpegts, s') = feed s ev.offset ev.bytes in
    (
      record { event = ev; mpegts = is_mpegts; captures = captures_of ev.seq chunks },
      broadcasts chunks,
      s',
    )

-- The loop of `run` over the writes that arrive.
pub sniff_all : TsScanner → List WriteEvent → List ObservedWrite × TsScanner
sniff_all s [] = ([], s)
sniff_all s (e ∷ es) =
    let (o, b, s') = sniff s e in let (os, s'') = sniff_all s' es in (o ∷ os, s'')
