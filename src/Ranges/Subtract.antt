-- ===== src/Ranges/Subtract.antt =====
-- `subtractRanges` is the difference of two sets of bytes.
use tssniff.Prelude.{
  ℕ, suc, ◌≤◌, ◌<◌, ◌≡◌, refl, ◌∙◌, Bool, true, false, not, ◌&&◌, ◌||◌, List, [], ◌∷◌, ◌++◌, arith,
  ltb, leb, inl, inr, Bool-cases,
}
use tssniff.Ranges.{
  ByteRange, skip_before, rest_piece, gap_before, gaps, subtract_from, subtract_ranges,
}
use tssniff.Ranges.Points.{
  holds, covers, IsSeparated, IsSeparated-mono, covers-append, covers_below,
}
use tssniff.Ranges.Coalesce.{covers-coalesce_byte_ranges}

covers-skip_before :
    (x s : ℕ) (os : List ByteRange) → s ≤ x → covers x (skip_before s os) ≡ covers x os
unfolding skip_before
covers-skip_before x s [] h = refl
covers-skip_before x s (o ∷ os) h = ground (arith, covers-skip_before x s os h)

skip_before-IsSeparated :
    (lo s : ℕ) (os : List ByteRange) → IsSeparated lo os → IsSeparated lo (skip_before s os)
unfolding skip_before
skip_before-IsSeparated lo s [] h = tt
skip_before-IsSeparated lo s (o ∷ os) (a, b, c) =
    ground (arith, skip_before-IsSeparated lo s os (IsSeparated-mono os (omega arith) c))

-- Whether `x` lies in `[cursor, stop)` and outside a set that holds it or not.
abbrev left_over : ℕ → ℕ → ℕ → Bool → Bool
left_over x cursor stop taken = (leb cursor x && ltb x stop) && not taken

covers-rest_piece :
    (x cursor stop : ℕ) → covers x (rest_piece cursor stop) ≡ left_over x cursor stop false
unfolding rest_piece
covers-rest_piece x cursor stop = ground arith

covers-gap_before :
    (x cursor stop : ℕ) (o : ByteRange)
    → covers x (gap_before cursor stop o) ≡ left_over x cursor stop (leb o.start x)
unfolding gap_before
covers-gap_before x cursor stop o = ground arith

left_over_beyond :
    (x cursor stop : ℕ) (o : ByteRange) (c : Bool)
    → ltb o.start stop ≡ false
    → (x < o.start → c ≡ false)
    → left_over x cursor stop false ≡ left_over x cursor stop (holds x o || c)
left_over_beyond x cursor stop o c e h = ground arith

left_over_before :
    (x cursor stop : ℕ) (o : ByteRange) (c : Bool)
    → leb o.end cursor ≡ true
    → left_over x cursor stop c ≡ left_over x cursor stop (holds x o || c)
left_over_before x cursor stop o c e = ground arith

left_over_across :
    (x cursor stop : ℕ) (o : ByteRange) (c : Bool)
    → leb o.end cursor ≡ false
    → o.start < o.end
    → (x < o.end → c ≡ false)
    → (left_over x cursor stop (leb o.start x) || left_over x o.end stop c)
      ≡ left_over x cursor stop (holds x o || c)
left_over_across x cursor stop o c e b h = ground arith

covers-last_gap :
    (x lo stop : ℕ) (o : ByteRange) (os : List ByteRange)
    → leb stop o.end ≡ true
    → covers x (rest_piece o.end stop) ≡ left_over x o.end stop (covers x os)
covers-last_gap x lo stop o os e = ground (arith, covers-rest_piece x o.end stop)

covers-gaps :
    (x lo cursor stop : ℕ) (os : List ByteRange)
    → IsSeparated lo os
    → covers x (gaps cursor stop os) ≡ left_over x cursor stop (covers x os)
unfolding gaps
covers-gaps x lo cursor stop [] s = covers-rest_piece x cursor stop
covers-gaps x lo cursor stop (o ∷ os) (a, b, s) = elim (Bool-cases (ltb o.start stop)) [
  | inr e ↦
      rw (e, gaps)
        (covers-rest_piece x cursor stop
          ∙ left_over_beyond x cursor stop o (covers x os) e
              (λ h. covers_below x (suc o.end) os s (omega arith)))
  | inl e ↦ elim (Bool-cases (leb o.end cursor)) [
    | inl f ↦
        rw (e, f, gaps)
          (covers-gaps x (suc o.end) cursor stop os s
            ∙ left_over_before x cursor stop o (covers x os) f)
    | inr f ↦ elim (Bool-cases (leb stop o.end)) [
      | inl g ↦
          rw (e, f, g, gaps) (across f (rest_piece o.end stop) (covers-last_gap x lo stop o os g))
      | inr g ↦
          rw (e, f, g, gaps)
            (across f (gaps o.end stop os) (covers-gaps x (suc o.end) o.end stop os s))
    ]
  ]
]
  where
    across :
        leb o.end cursor ≡ false
        → (ps : List ByteRange) → covers x ps ≡ left_over x o.end stop (covers x os)
        → covers x (gap_before cursor stop o ++ ps)
          ≡ left_over x cursor stop (holds x o || covers x os)
    across f ps p =
        covers-append x (gap_before cursor stop o) ps
        ∙ rw (p, covers-gap_before x cursor stop o)
            (left_over_across x cursor stop o (covers x os) f b
              (λ h. covers_below x (suc o.end) os s (omega arith)))

subtract_step :
    (x lo : ℕ) (n : ByteRange) (ns os : List ByteRange) (c : Bool)
    → leb n.end n.start ≡ false
    → (x < suc n.end → covers x ns ≡ false)
    → (n.start ≤ x → c ≡ covers x os)
    → (left_over x n.start n.end c || (covers x ns && not c))
      ≡ ((holds x n || covers x ns) && not (covers x os))
subtract_step x lo n ns os c e h k = ground arith

covers-subtract_from :
    (x lo lo' : ℕ) (ns os : List ByteRange)
    → IsSeparated lo ns
    → IsSeparated lo' os
    → covers x (subtract_from ns os) ≡ (covers x ns && not (covers x os))
unfolding subtract_from
covers-subtract_from x lo lo' [] os s t = refl
covers-subtract_from x lo lo' (n ∷ ns) os (a, b, s) t = elim (Bool-cases (leb n.end n.start)) [
  | inl e ↦ absurd (ground arith)
  | inr e ↦
      let u = skip_before-IsSeparated lo' n.start os t in
      rw (e, subtract_from)
        (covers-append x (gaps n.start n.end (skip_before n.start os))
            (subtract_from ns (skip_before n.start os))
          ∙ rw
              (
                covers-gaps x lo' n.start n.end (skip_before n.start os) u,
                covers-subtract_from x (suc n.end) lo' ns (skip_before n.start os) s u,
              )
              (subtract_step x lo n ns os (covers x (skip_before n.start os)) e
                (covers_below x (suc n.end) ns s) (covers-skip_before x n.start os)))
]

-- On separated lists, a byte is in the result of `subtractRanges` exactly if it is in the new
-- ranges and not in the old ones.
pub covers-subtract_ranges :
    (x : ℕ) (new old : List ByteRange)
    → IsSeparated 0 new
    → IsSeparated 0 old
    → covers x (subtract_ranges new old) ≡ (covers x new && not (covers x old))
unfolding subtract_ranges
covers-subtract_ranges x new old s t =
    covers-coalesce_byte_ranges x (subtract_from new old) ∙ covers-subtract_from x 0 0 new old s t
