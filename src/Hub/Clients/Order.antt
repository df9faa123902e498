-- ===== src/Hub/Clients/Order.antt =====
-- The two channels of a client of hub.go keep the order of what they hold.
use mathlib.Core.List.{append_assoc, append-nil}
use tssniff.Prelude.{
  ℕ, zero, suc, ◌+◌, ◌<◌, ◌≡◌, refl, sym, subst, Bool, true, ◌||◌, ◌&&◌, List, [], ◌∷◌, ◌++◌, ltb,
  length, drop, inl, inr, Bool-cases, arith,
}
use tssniff.Hub.{Payload}
use tssniff.Hub.Order.{Sub, Sub-append, Sub-remove}
use tssniff.Hub.Clients.{Client, offer, dispatch_to, push, drain_round}

Sub-at_end :
    (before items ys : List Payload) (p : Payload)
    → Sub (before ++ items) ys
    → Sub (before ++ (items ++ (p ∷ []))) (ys ++ (p ∷ []))
Sub-at_end before items ys p s =
    subst (λ xs. Sub xs (ys ++ (p ∷ []))) (append_assoc before items (p ∷ []))
      (Sub-append (before ++ items) ys p s)

Sub-later : (xs ys : List Payload) (p : Payload) → Sub xs ys → Sub xs (ys ++ (p ∷ []))
Sub-later xs ys p s =
    subst (λ zs. Sub zs (ys ++ (p ∷ []))) (append-nil xs)
      (Sub-remove xs p [] (ys ++ (p ∷ [])) (Sub-append xs ys p s))

-- What is left once the oldest entry is taken.
Sub-drop_one :
    (before items rest ys : List Payload)
    → Sub (before ++ (items ++ rest)) ys
    → Sub (before ++ (drop 1 items ++ rest)) ys
Sub-drop_one before [] rest ys s = s
Sub-drop_one before (x ∷ items) rest ys s = Sub-remove before x (items ++ rest) ys s

-- A payload put into a full inbox takes the place of the oldest one.
Sub-offer :
    (n : ℕ) (payload : Payload) (before items ys : List Payload)
    → Sub (before ++ items) ys
    → Sub (before ++ offer n payload items) (ys ++ (payload ∷ []))
unfolding offer
Sub-offer n payload before items ys s =
    let dropped =
      subst (λ xs. Sub (before ++ xs) ys) (append-nil (drop 1 items))
        (Sub-drop_one before items [] ys
          (subst (λ xs. Sub (before ++ xs) ys) (sym (append-nil items)) s)) in
    elim (Bool-cases (ltb (length items) n)) [
      | inl e ↦ rw e (Sub-at_end before items ys payload s)
      | inr e ↦ elim (Bool-cases (ltb (length (drop 1 items)) n)) [
        | inl f ↦ rw (e, f) (Sub-at_end before (drop 1 items) ys payload dropped)
        | inr f ↦ rw (e, f) (Sub-later (before ++ drop 1 items) ys payload dropped)
      ]
    ]

-- The loop of drain takes from the front until there is room.
Sub-push :
    (fuel n : ℕ) (payload : Payload) (before out rest ys : List Payload)
    → Sub (before ++ (out ++ (payload ∷ rest))) ys
    → Sub (before ++ (push fuel n payload out ++ rest)) ys
unfolding push
Sub-push zero n payload before out rest ys s =
    subst (λ xs. Sub xs ys) (append_assoc before out rest)
      (Sub-remove (before ++ out) payload rest ys
        (subst (λ xs. Sub xs ys) (sym (append_assoc before out (payload ∷ rest))) s))
Sub-push (suc fuel) n payload before out rest ys s = elim (Bool-cases (ltb (length out) n)) [
  | inl e ↦
      rw e (subst (λ xs. Sub (before ++ xs) ys) (sym (append_assoc out (payload ∷ []) rest)) s)
  | inr e ↦ rw e (
      Sub-push fuel n payload before (drop 1 out) rest ys
        (Sub-drop_one before out (payload ∷ rest) ys s))
]

pub Sub-drain_round :
    (items : List Payload) (n : ℕ) (prefer : Bool) (c : Client) (before ys : List Payload)
    → c.inbox ≡ items
    → Sub (before ++ (c.out ++ c.inbox)) ys
    → let c' = drain_round items n prefer c in Sub (before ++ (c'.out ++ c'.inbox)) ys
unfolding drain_round
Sub-drain_round [] n prefer c before ys e s = s
Sub-drain_round (p ∷ ps) n prefer c before ys e s =
    elim (Bool-cases (c.out_closed || ltb 0 c.closes && prefer)) [
      | inl f ↦ rw f s
      | inr f ↦ rw f (
          Sub-push (length c.out + 1) n p before c.out ps ys
            (subst (λ xs. Sub (before ++ (c.out ++ xs)) ys) e s))
    ]

-- A payload is put behind what the client has.
pub Sub-dispatch_to :
    (n : ℕ) (payload : Payload) (c : Client) (before ys : List Payload)
    → Sub (before ++ (c.out ++ c.inbox)) ys
    → let c' = dispatch_to true n payload c in
      Sub (before ++ (c'.out ++ c'.inbox)) (ys ++ (payload ∷ []))
unfolding dispatch_to
Sub-dispatch_to n payload c before ys s =
    subst (λ xs. Sub xs (ys ++ (payload ∷ [])))
      (append_assoc before c.out (offer n payload c.inbox))
      (Sub-offer n payload (before ++ c.out) c.inbox ys
        (subst (λ xs. Sub xs ys) (sym (append_assoc before c.out c.inbox)) s))

-- Neither of the two takes the client out of the set.
pub registered-drain_round :
    (items : List Payload) (n : ℕ) (prefer : Bool) (c : Client)
    → let c' = drain_round items n prefer c in
      (c'.registered ≡ c.registered) × (c'.closes ≡ c.closes)
unfolding drain_round
registered-drain_round [] n prefer c = (refl, refl)
registered-drain_round (p ∷ ps) n prefer c = ground arith

pub registered-dispatch_to :
    (n : ℕ) (payload : Payload) (c : Client)
    → let c' = dispatch_to true n payload c in
      (c'.registered ≡ c.registered) × (c'.closes ≡ c.closes)
unfolding dispatch_to
registered-dispatch_to n payload c = (refl, refl)

-- drain takes `done`, once it is closed, before any payload when it comes first.
pub out-drain_round :
    (items : List Payload) (n : ℕ) (c : Client)
    → 0 < c.closes
    → let c' = drain_round items n true c in (c'.out_closed ≡ true) × (c'.out ≡ c.out)
unfolding drain_round
out-drain_round [] n c h = ground (arith, h)
out-drain_round (p ∷ ps) n c h = ground (arith, h)
