-- ===== src/Scanner/Tests.antt =====
-- Runs of the detector on small streams of packets whose payload is zero.
use tssniff.Prelude.{ℕ, zero, suc, ◌≡◌, refl, false, List, [], ◌∷◌, ◌++◌, arith, replicate}
use tssniff.Scanner.{new_ts_scanner, find_mpegts, feed, feed_probing, reset, keep_tail}
use tssniff.Scanner.Chunks.{AreChunksOf}
use tssniff.Scanner.Feed.{IsValid, new_ts_scanner-IsValid, looked_at}
use tssniff.Scanner.Find.{IsFirstSync, find_mpegts-IsFirstSync}
use tssniff.Scanner.Verdict.{feed-IsValid, feed-AreChunksOf}

abbrev packet : List ℕ
packet = 0x47 ∷ 0 ∷ 0 ∷ 0x10 ∷ replicate 184 0

abbrev stream : ℕ → List ℕ
stream zero = []
stream (suc n) = packet ++ stream n

refused : (feed new_ts_scanner 8 (1 ∷ 2 ∷ [])).1 ≡ false
unfolding feed feed_probing new_ts_scanner reset find_mpegts keep_tail
refused = refl

find_mpegts-IsFirstSync_example : IsFirstSync (0 ∷ stream 10) (find_mpegts (0 ∷ stream 10))
find_mpegts-IsFirstSync_example = find_mpegts-IsFirstSync (0 ∷ stream 10)

feed-IsValid_example : IsValid (feed new_ts_scanner 4096 (stream 10)).2
feed-IsValid_example =
    feed-IsValid new_ts_scanner 4096 (stream 10) new_ts_scanner-IsValid (omega arith)

feed-AreChunksOf_example :
    AreChunksOf
      (looked_at new_ts_scanner 4096 (stream 10))
      (looked_at new_ts_scanner 4096 (stream 10)).buffer_start
      (feed new_ts_scanner 4096 (stream 10)).0
feed-AreChunksOf_example =
    feed-AreChunksOf new_ts_scanner 4096 (stream 10) new_ts_scanner-IsValid (omega arith)
