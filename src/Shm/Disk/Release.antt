-- ===== src/Shm/Disk/Release.antt =====
-- `ReleaseIfCurrent`: what a reader sees stays, and a generation that lost a byte releases nothing.
use tssniff.Prelude.{
  ℕ, ◌+◌, ◌≤◌, ◌<◌, ◌≡◌, ◌≢◌, refl, ◌∙◌, true, false, List, [], ◌∷◌, Option, none, some, arith,
  length, inl, inr, Bool-cases,
}
use tssniff.Shm.Io.{IoError, Io, Bytes, punch_bytes, ShmError, ok}
use tssniff.Shm.Extents.{ShmExtent, remove_range_generation, covers_generation}
use tssniff.Shm.Extents.Owner.{owner, IsOrdered}
use tssniff.Shm.Extents.Replace.{owner-replace_range, replace_range-IsOrdered}
use tssniff.Shm.Extents.Remove.{owner-remove_range_generation}
use tssniff.Shm.Extents.Generation.{Owns, covers_generation_iff}
use tssniff.Shm.Disk.{ShmDisk, stage_write, release_one, release_from, release_if_current}
use tssniff.Shm.Disk.Valid.{IsValid, release_one-IsValid}
use tssniff.Shm.Disk.View.{view, seen, stage_write-ok}

-- The physical image already holds what a reader sees in the extent.
abbrev pub IsFlushed : Bytes → ShmDisk → ShmExtent → Type 0
IsFlushed base s p = (y : ℕ) → p.start ≤ y → y < p.end → base y ≡ view base s y

-- What a reader sees once the extent is punched and its owner is gone.
view-punched :
    (base : Bytes) (s : ShmDisk) (p : ShmExtent) (x : ℕ)
    → IsValid s
    → p.start < p.end
    → covers_generation p s.extents ≡ true
    → (p.start ≤ x → x < p.end → base x ≡ view base s x)
    → seen
        (base x)
        (punch_bytes s.content p.start p.end x)
        (owner x (remove_range_generation p.start p.end p.gen s.extents))
      ≡ view base s x
unfolding punch_bytes
view-punched base s p x v h c flushed = ground (
  arith,
  (covers_generation_iff 0 p s.extents v.ordered h).0 c x,
  owner-remove_range_generation p.start p.end p.gen 0 s.extents (omega arith) v.ordered x,
  flushed,
)

view-release_one :
    (base : Bytes) (s : ShmDisk) (p : ShmExtent) (punch : Option IoError) (x : ℕ)
    → IsValid s
    → IsFlushed base s p
    → view base (release_one s p punch).1 x ≡ view base s x
unfolding release_one
view-release_one base s p punch x v flushed = ground (
  arith,
  λ (h : p.start < p.end) (c : covers_generation p s.extents ≡ true).
      view-punched base s p x v h c (flushed x),
)

abbrev pub AllFlushed : Bytes → ShmDisk → List ShmExtent → Type 0
AllFlushed base s [] = Unit {0}
AllFlushed base s (p ∷ ps) = IsFlushed base s p × AllFlushed base s ps

-- Flushed extents stay flushed while the view stays.
AllFlushed-same :
    (base : Bytes) (s t : ShmDisk) (ps : List ShmExtent)
    → ((y : ℕ) → view base t y ≡ view base s y)
    → AllFlushed base s ps
    → AllFlushed base t ps
AllFlushed-same base s t [] same f = tt
AllFlushed-same base s t (p ∷ ps) same (f, fs) =
    (λ y a b. cc (f y a b, same y), AllFlushed-same base s t ps same fs)

view-release_from :
    (base : Bytes) (i : ℕ) (punch : ℕ → Option IoError) (first : Option ShmError) (s : ShmDisk)
    (ps : List ShmExtent) (x : ℕ)
    → IsValid s
    → AllFlushed base s ps
    → view base (release_from i punch first s ps).1 x ≡ view base s x
unfolding release_from
view-release_from base i punch first s [] x v f = refl
view-release_from base i punch first s (p ∷ ps) x v (f, fs) =
    let same = λ (y : ℕ). view-release_one base s p (punch i) y v f in
    view-release_from base (i + 1) punch _ (release_one s p (punch i)).1 ps x
      (release_one-IsValid s p (punch i) v)
      (AllFlushed-same base s (release_one s p (punch i)).1 ps same fs)
    ∙ same x

-- `ReleaseIfCurrent` on a valid disk does not change what a reader sees, whatever its calls
-- return, if the image already has what a reader sees in each planned extent.
pub view-release_if_current :
    (base : Bytes) (s : ShmDisk) (planned : List ShmExtent) (punch : ℕ → Option IoError) (x : ℕ)
    → IsValid s
    → AllFlushed base s planned
    → view base (release_if_current s planned punch).1 x ≡ view base s x
unfolding release_if_current
view-release_if_current base s planned punch x v f =
    view-release_from base 0 punch none s planned x v f

-- A release does nothing, or its generation owns the whole extent.
pub release_own_cases :
    (P : ShmDisk → Type 0) (s : ShmDisk) (p : ShmExtent) (punch : ℕ → Option IoError)
    → IsOrdered 0 s.extents
    → P s
    → (p.start < p.end
        → Owns p.start p.end p.gen s.extents
        → P (record s {
          content = punch_bytes s.content p.start p.end;
          extents = remove_range_generation p.start p.end p.gen s.extents;
        }))
    → P (release_if_current s (p ∷ []) punch).1
unfolding release_if_current release_from release_one
release_own_cases P s p punch o same released = ground (
  arith,
  λ (h : p.start < p.end) (c : covers_generation p s.extents ≡ true).
      released h ((covers_generation_iff 0 p s.extents o h).0 c),
)

-- A release needs the flushed byte only where its generation still owns the whole extent.
pub view-release_at :
    (base : Bytes) (s : ShmDisk) (p : ShmExtent) (punch : ℕ → Option IoError) (x : ℕ)
    → IsValid s
    → (Owns p.start p.end p.gen s.extents → p.start ≤ x → x < p.end → base x ≡ view base s x)
    → view base (release_if_current s (p ∷ []) punch).1 x ≡ view base s x
view-release_at base s p punch x v flushed =
    release_own_cases (λ t. view base t x ≡ view base s x) s p punch v.ordered refl
      (λ h own.
        view-punched base s p x v h ((covers_generation_iff 0 p s.extents v.ordered h).1 own)
          (flushed own))

pub view-release_own :
    (base : Bytes) (s : ShmDisk) (p : ShmExtent) (punch : ℕ → Option IoError) (x : ℕ)
    → IsValid s
    → (Owns p.start p.end p.gen s.extents → IsFlushed base s p)
    → view base (release_if_current s (p ∷ []) punch).1 x ≡ view base s x
view-release_own base s p punch x v flushed =
    view-release_at base s p punch x v (λ own. flushed own x)

-- One byte of the extent belongs to another generation, or to none: the release does nothing.
release_stale :
    (s : ShmDisk) (p : ShmExtent) (punch : ℕ → Option IoError) (x : ℕ)
    → IsOrdered 0 s.extents
    → s.closed ≡ false
    → p.start ≤ x
    → x < p.end
    → owner x s.extents ≢ some p.gen
    → release_if_current s (p ∷ []) punch ≡ (none, s)
unfolding release_if_current release_from release_one
release_stale s p punch x o c a b other =
    let stale : covers_generation p s.extents ≡ false =
      elim (Bool-cases (covers_generation p s.extents)) [
        | inl t ↦ absurd (other ((covers_generation_iff 0 p s.extents o (omega arith)).0 t x a b))
        | inr t ↦ t
      ] in
    ground arith

-- When a successful `StageWrite` has taken one byte at least from an extent of an earlier
-- generation, `ReleaseIfCurrent` of that extent does nothing and returns no error.
pub release_after_overwrite :
    (s : ShmDisk) (p n : ShmExtent) (bytes : List ℕ) (off : ℕ) (io : Io)
    (punch : ℕ → Option IoError) (x : ℕ)
    → IsValid s
    → p.gen < s.next_gen
    → (stage_write s bytes off io).0 ≡ ok n
    → p.start ≤ x
    → x < p.end
    → off ≤ x
    → x < off + length bytes
    → let s' = (stage_write s bytes off io).1 in release_if_current s' (p ∷ []) punch ≡ (none, s')
release_after_overwrite s p n bytes off io punch x v old h a b c d =
    let done = stage_write-ok s bytes off io v (omega arith) h in
    let wide : n.start < n.end = ground arith in
    let owned = owner-replace_range n s.extents wide v.ordered in
    rw done.3 (
      release_stale _ p punch x (replace_range-IsOrdered n s.extents wide v.ordered) done.2 a b
        (λ e. absurd (ground (arith, owned x))))
