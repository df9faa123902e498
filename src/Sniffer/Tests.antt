-- ===== src/Sniffer/Tests.antt =====
-- A run of the sniffer on two writes.
use tssniff.Prelude.{ℕ, ◌+◌, false, [], ◌∷◌, arith}
use tssniff.Events.{WriteEvent}
use tssniff.Scanner.{new_ts_scanner}
use tssniff.Scanner.Feed.{new_ts_scanner-IsValid}
use tssniff.Sniffer.{sniff_all}
use tssniff.Sniffer.Captures.{AreOutputs, sniff_all-AreOutputs}

abbrev write_at : ℕ → ℕ → WriteEvent
write_at n off = record {
  seq = n;
  offset = off;
  bytes = 0x47 ∷ 1 ∷ 2 ∷ [];
  staged = record { start = off; end = off + 3; gen = n };
  touches_mft = false;
}

sniff_all-AreOutputs_example :
    AreOutputs
      (write_at 1 8 ∷ write_at 2 11 ∷ [])
      (sniff_all new_ts_scanner (write_at 1 8 ∷ write_at 2 11 ∷ [])).0
sniff_all-AreOutputs_example =
    sniff_all-AreOutputs new_ts_scanner (write_at 1 8 ∷ write_at 2 11 ∷ []) new_ts_scanner-IsValid
      (omega arith, (omega arith, tt))
