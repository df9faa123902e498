-- ===== src/System/Requests.antt =====
-- A request to write keeps what holds of the parts together.
use tssniff.Prelude.{
  ℕ, ◌+◌, ◌^◌, ◌<◌, ◌≡◌, refl, sym, ◌∙◌, ap, subst, Bool, false, not, ◌&&◌, ◌||◌, List, [], ◌∷◌,
  ◌++◌, arith, length, inl, inr, Bool-cases, add_u64,
}
use tssniff.Shm.Io.{Io, Bytes, write_bytes, ok}
use tssniff.Shm.Extents.{ShmExtent}
use tssniff.Shm.Extents.Replace.{owner-replace_range}
use tssniff.Shm.Disk.{ShmDisk, stage_write}
use tssniff.Shm.Disk.Valid.{IsValid, stage_write-IsValid}
use tssniff.Shm.Disk.View.{view, view-stage_write, stage_write-ok}
use tssniff.Fuse.{done, DiskNode, staged}
use tssniff.System.{System, Promise, in_range, promise_request, act, promise, request}
use tssniff.Fuse.Outcomes.{event_of, write_cases}
use tssniff.System.Pending.{
  Extends, IsHeld, AllBelow, ArePending-AllBelow, ArePending-add, ArePending-extends,
}
use tssniff.System.Holds.{Holds, replay-append}
use tssniff.System.Served.{stage_write-Extends, stage_write-err, result_cases}

-- Outside of its range a `StageWrite` shows what was there.
view-outside :
    (base : Bytes) (s : ShmDisk) (bytes : List ℕ) (start : ℕ) (io : Io) (x : ℕ)
    → IsValid s
    → in_range start (length bytes) x ≡ false
    → view base (stage_write s bytes start io).1 x ≡ view base s x
view-outside base s bytes start io x v out = elim (result_cases (stage_write s bytes start io).0) [
  | inl (e, h) ↦ view-stage_write base s bytes start io x v h ∙ rw out refl
  | inr (e, h) ↦
      let (es, gen, same) = stage_write-err s bytes start io h in rw (es, same x out) refl
]

module _ (s : System) (p : Promise) (bytes : List ℕ) (start : ℕ) (h : Holds s p) where
  -- The range becomes unknown.
  abbrev unknown : ℕ → Bool
  unknown x = not (in_range start (length bytes) x) && p.known x

  -- A request that hands over no write, and leaves the bytes outside of its range.
  Holds-refused :
      (d : DiskNode)
      → d.submitted ≡ s.node.submitted
      → IsValid d.shm
      → Extends p.known unknown s.node.shm d.shm
      → ((x : ℕ)
          → in_range start (length bytes) x ≡ false
          → view s.disk d.shm x ≡ view s.disk s.node.shm x)
      → Holds (record s { node = d }) (record p { known = unknown })
  Holds-refused d same v x outside = record {
    valid = v;
    pending =
        rw same
          (ArePending-extends p.known unknown s.node.shm d.shm x 0 s.node.submitted h.pending);
    visible = λ y k. outside y (ground (arith, k)) ∙ h.visible y (ground (arith, k));
    stored = λ y k. rw same (h.stored y k);
  }

  Holds-untouched : Holds s (record p { known = unknown })
  Holds-untouched =
      Holds-refused s.node refl h.valid
        (record {
          grows = omega arith;
          fresh = λ x. inl refl;
          same = λ x g e below k. (ground (arith, k), refl);
        })
        (λ x out. refl)

-- The event of a request that was staged.
new-IsHeld :
    (known : ℕ → Bool) (s : ShmDisk) (bytes : List ℕ) (start : ℕ) (io : Io) {e : ShmExtent}
    (seq : ℕ) (touches : Bool)
    → IsValid s
    → s.next_gen + 1 < 2 ^ 64
    → 0 < length bytes
    → (stage_write s bytes start io).0 ≡ ok e
    → IsHeld known (stage_write s bytes start io).1 (event_of bytes start e seq touches)
unfolding write_bytes
new-IsHeld known s bytes start io seq touches v w p h =
    let made = stage_write-ok s bytes start io v p h in
    let n : ShmExtent = record { start = start; end = start + length bytes; gen = s.next_gen } in
    let owners = owner-replace_range n s.extents (omega (arith, p)) v.ordered in
    let gens : add_u64 s.next_gen 1 ≡ s.next_gen + 1 = ground (arith, w) in
    rw (made.3, made.0, gens)
      (record {
        begins = refl;
        ends = refl;
        issued = omega arith;
        owned = λ x i. (s.next_gen, ground (arith, owners x, i), omega arith);
        copied = λ x i own k. ground (arith, i);
      })

module _ (s : System) (p : Promise) (bytes : List ℕ) (start : ℕ) (io : Io) (h : Holds s p)
    (w : s.node.shm.next_gen + 1 < 2 ^ 64) where
  -- A request that is staged but handed over no write.
  Holds-dropped :
      (d : DiskNode)
      → d.submitted ≡ s.node.submitted
      → d.shm ≡ (stage_write s.node.shm bytes start io).1
      → Holds (record s { node = d }) (record p { known = unknown s p bytes start h })
  Holds-dropped d same staged =
      Holds-refused s p bytes start h d same
        (subst IsValid (sym staged) (stage_write-IsValid s.node.shm bytes start io h.valid w))
        (subst (Extends p.known (unknown s p bytes start h) s.node.shm) (sym staged) (
          stage_write-Extends p.known (unknown s p bytes start h) s.node.shm bytes start io h.valid
            w (λ x k. inl (ground (arith, k), ground (arith, k)))))
        (λ x out.
          ap (λ t. view s.disk t x) staged
          ∙ view-outside s.disk s.node.shm bytes start io x h.valid out)

  -- A request that hands over its write.
  Holds-taken :
      (d : DiskNode) {e : ShmExtent} (n seq : ℕ) (touches : Bool)
      → 0 < length bytes
      → (stage_write s.node.shm bytes start io).0 ≡ ok e
      → d.submitted ≡ s.node.submitted ++ (event_of bytes start e seq touches ∷ [])
      → d.shm ≡ (stage_write s.node.shm bytes start io).1
      → Holds (record s { node = d }) (promise_request (done n) bytes start p)
  unfolding promise_request write_bytes
  Holds-taken d {e} n seq touches some_bytes went queue staged =
      let known' = λ (x : ℕ). in_range start (length bytes) x || p.known x in
      let evs = s.node.submitted in
      let s' = (stage_write s.node.shm bytes start io).1 in
      let made = stage_write-ok s.node.shm bytes start io h.valid some_bytes went in
      let gen : e.gen ≡ s.node.shm.next_gen = ap (λ t. t.gen) made.0 in
      let ext = stage_write-Extends p.known known' s.node.shm bytes start io h.valid w (λ x k.
        elim (Bool-cases (in_range start (length bytes) x)) [
          | inl i ↦ inr (i, e, went)
          | inr o ↦ inl (o, ground (arith, k, o))
        ]) in
      record {
        valid =
            subst IsValid (sym staged) (stage_write-IsValid s.node.shm bytes start io h.valid w);
        pending =
            rw (staged, queue)
              (ArePending-add known' s' 0 evs (event_of bytes start e seq touches)
                (ArePending-extends p.known known' s.node.shm s' ext 0 evs h.pending) (omega arith)
                (subst (λ g. AllBelow g evs) (sym gen)
                  (ArePending-AllBelow p.known s.node.shm 0 evs h.pending))
                (new-IsHeld known' s.node.shm bytes start io seq touches h.valid w some_bytes
                  went));
        visible = λ y k.
            ap (λ t. view s.disk t y) staged
            ∙ view-stage_write s.disk s.node.shm bytes start io y h.valid went
            ∙ ground (arith, k, h.visible y);
        stored = λ y k.
            rw (queue, replay-append s.disk evs (event_of bytes start e seq touches))
              (ground (arith, k, h.stored y));
      }

  -- A request of no bytes changes nothing.
  Holds-empty : (n : ℕ) → length bytes ≡ 0 → Holds s (promise_request (done n) bytes start p)
  unfolding promise_request
  Holds-empty n z =
      let known' = λ (x : ℕ). in_range start (length bytes) x || p.known x in
      let ext : Extends p.known known' s.node.shm s.node.shm = record {
        grows = omega arith;
        fresh = λ x. inl refl;
        same = λ x g e below k. (ground (arith, k, z), refl);
      } in
      record {
        valid = h.valid;
        pending =
            ArePending-extends p.known known' s.node.shm s.node.shm ext 0 s.node.submitted
              h.pending;
        visible = λ y k. ground (arith, k, z, h.visible y);
        stored = λ y k. ground (arith, k, z, h.stored y);
      }

  pub Holds-request : Holds (act (request bytes start io) s) (promise (request bytes start io) s p)
  unfolding act promise promise_request
  Holds-request =
      write_cases (λ r. Holds (record s { node = r.1 }) (promise_request r.0 bytes start p)) s.node
        bytes start io Holds-empty (Holds-untouched s p bytes start h) Holds-dropped
        (λ d n some_bytes e seq touches went queue same.
          Holds-taken d n seq touches some_bytes went queue same)
