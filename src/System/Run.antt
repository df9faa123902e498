-- ===== src/System/Run.antt =====
-- Any sequence of requests, of steps of the writer and of punches.
use tssniff.Prelude.{
  ℕ, ◌+◌, ◌-◌, ◌^◌, ◌≤◌, ◌<◌, ◌≡◌, refl, sym, ◌∙◌, ap, subst, Bool, true, List, [], ◌∷◌, Option,
  arith, length, inl, inr,
}
use tssniff.Events.{WriteEvent, PunchRequest}
use tssniff.Shm.Io.{Io, IoError}
use tssniff.Shm.Disk.Valid.{IsValid}
use tssniff.Shm.Disk.{ShmDisk, stage_write}
use tssniff.Shm.Disk.Release.{release_own_cases}
use tssniff.Fuse.Outcomes.{write_cases}
use tssniff.Writer.{process_punch}
use tssniff.Writer.Reader.{process_write_cases, process_punch-outside}
use tssniff.System.{
  give_up, System, Promise, Action, settle_next, promise_settle, writer_of, act, act_all, promise,
  promise_all, request, settle, punch,
}
use tssniff.System.Pending.{ArePending, owner-covered}
use tssniff.System.Holds.{Holds, replay, replay-agree}
use tssniff.System.Requests.{Holds-request}
use tssniff.System.Settled.{ArePending-less}
use tssniff.System.Steps.{give_up-less, view-owned, settled, Holds-ts, Holds-part, Holds-whole}

Holds-settle_next :
    (s : System) (p : Promise) (queue : List WriteEvent) (mpegts : Bool) (io : Io)
    (fault : Option IoError)
    → Holds s p
    → s.node.submitted ≡ queue
    → Holds (settle_next queue mpegts io fault s) (promise_settle queue mpegts io p)
unfolding settle_next promise_settle
Holds-settle_next s p [] mpegts io fault h same = h
Holds-settle_next s p (ev ∷ evs) mpegts io fault h same =
    let pending = subst (ArePending p.known s.node.shm 0) same h.pending in
    let stored =
      λ (x : ℕ) (k : p.kept x ≡ true). ap (λ q. replay s.disk q x) (sym same) ∙ h.stored x k in
    process_write_cases
      (λ w.
        Holds (settled s p ev evs h.valid pending.1 pending.2 h.visible stored w)
          (promise_settle (ev ∷ evs) mpegts io p))
      (writer_of s) (record { event = ev; mpegts = mpegts; captures = [] }) io fault
      (λ ts. rw ts (Holds-ts s p ev evs h.valid pending.1 pending.2 h.visible stored fault))
      (λ r plain.
        rw plain (Holds-part s p ev evs h.valid pending.1 pending.2 h.visible stored io r))
      (λ r plain all.
        rw plain
          (Holds-whole s p ev evs h.valid pending.1 pending.2 h.visible stored io fault r all))

Holds-punch :
    (s : System) (p : Promise) (req : PunchRequest) (fault : Option IoError)
    → Holds s p
    → Holds (act (punch req fault) s) (promise (punch req fault) s p)
unfolding act promise writer_of
Holds-punch s p req fault h =
    let evs = s.node.submitted in
    let n = req.end - req.start in
    let disk = (process_punch (writer_of s) req fault).disk in
    record {
      valid = h.valid;
      pending =
          ArePending-less p.known (give_up evs req.start n p.known) s.node.shm 0 evs
            (λ x k. (give_up-less evs req.start n p.known x k).0) h.pending;
      visible = λ x k.
          let (k', out) = give_up-less evs req.start n p.known x k in
          elim out [
            | inl c ↦
                let (g, own, le) = owner-covered p.known s.node.shm 0 evs x h.pending c in
                view-owned disk s.disk s.node.shm x g own
            | inr o ↦ rw (process_punch-outside (writer_of s) req fault x o) refl
          ]
          ∙ h.visible x k';
      stored = λ x k.
          let (k', out) = give_up-less evs req.start n p.kept x k in
          replay-agree disk s.disk evs x (elim out [
            | inl c ↦ inl c
            | inr o ↦ inr (process_punch-outside (writer_of s) req fault x o)
          ])
          ∙ h.stored x k';
    }

Holds-act :
    (a : Action) (s : System) (p : Promise)
    → Holds s p
    → s.node.shm.next_gen + 1 < 2 ^ 64
    → Holds (act a s) (promise a s p)
unfolding act promise
Holds-act (request bytes start io) s p h w = Holds-request s p bytes start io h w
Holds-act (settle mpegts io fault) s p h w =
    Holds-settle_next s p s.node.submitted mpegts io fault h refl
Holds-act (punch req fault) s p h w = Holds-punch s p req fault h

-- An action uses up one generation at most, and the overlay keeps its size.
abbrev Near : ShmDisk → ShmDisk → Type 0
Near s s' = (s'.next_gen ≤ s.next_gen + 1) × (s'.size ≡ s.size)

settle_next-Near :
    (s : System) (queue : List WriteEvent) (mpegts : Bool) (io : Io) (fault : Option IoError)
    → IsValid s.node.shm
    → Near s.node.shm (settle_next queue mpegts io fault s).node.shm
unfolding settle_next writer_of
settle_next-Near s [] mpegts io fault v = (omega arith, refl)
settle_next-Near s (ev ∷ evs) mpegts io fault v =
    let same =
      release_own_cases (Near s.node.shm) s.node.shm ev.staged (λ _. fault) v.ordered
        (omega arith, refl) (λ b own. (omega arith, refl)) in
    process_write_cases (λ w. Near s.node.shm w.shm) (writer_of s)
      (record { event = ev; mpegts = mpegts; captures = [] }) io fault (λ ts. same)
      (λ r plain. (omega arith, refl)) (λ r plain all. same)

stage_write-Near :
    (s : ShmDisk) (bytes : List ℕ) (start : ℕ) (io : Io) → Near s (stage_write s bytes start io).1
unfolding stage_write
stage_write-Near s bytes start io = ground arith

act-Near : (a : Action) (s : System) → IsValid s.node.shm → Near s.node.shm (act a s).node.shm
unfolding act
act-Near (request bytes start io) s v =
    let staged = stage_write-Near s.node.shm bytes start io in
    write_cases (λ r. Near s.node.shm r.1.shm) s.node bytes start io (λ n z. (omega arith, refl))
      (omega arith, refl) (λ d queue e. rw e staged) (λ d n z x seq touches ok queue e. rw e staged)
act-Near (settle mpegts io fault) s v = settle_next-Near s s.node.submitted mpegts io fault v
act-Near (punch req fault) s v = (omega arith, refl)

pub Holds-act_all :
    (acts : List Action) (s : System) (p : Promise)
    → Holds s p
    → s.node.shm.next_gen + length acts < 2 ^ 64
    → Holds (act_all acts s) (promise_all acts s p)
unfolding act_all promise_all
Holds-act_all [] s p h w = h
Holds-act_all (a ∷ acts) s p h w =
    let (more, size) = act-Near a s h.valid in
    Holds-act_all acts (act a s) (promise a s p) (Holds-act a s p h (omega (arith, w)))
      (omega (arith, w, more))

pub size-act_all :
    (acts : List Action) (s : System) (p : Promise)
    → Holds s p
    → s.node.shm.next_gen + length acts < 2 ^ 64
    → (act_all acts s).node.shm.size ≡ s.node.shm.size
unfolding act_all
size-act_all [] s p h w = refl
size-act_all (a ∷ acts) s p h w =
    let (more, size) = act-Near a s h.valid in
    size-act_all acts (act a s) (promise a s p) (Holds-act a s p h (omega (arith, w)))
      (omega (arith, w, more))
    ∙ size
