-- ===== src/Hub/Order.antt =====
-- A receiver gets payloads in the order in which they were handed over, and the newest is never
-- given up.
use mathlib.Core.List.{append_assoc, append-nil}
use tssniff.Prelude.{
  ℕ, suc, ◌≤◌, ◌<◌, ◌≡◌, refl, ◌∙◌, ap, sym, subst, Option, none, some, true, List, [], ◌∷◌, ◌++◌,
  arith, ltb, length, inl, inr, ◌⊎◌, Bool-cases, length-append,
}
use tssniff.Hub.{
  Payload, Stage, idle, refused, dropped, Channel, new_channel, try_send, send, go_on, receive,
  Action, sends, goes_on, receives, act, act_all,
}

-- The first list is the second without some of its entries.
abbrev pub Sub : List Payload → List Payload → Type 0
Sub [] ys = Unit {0}
Sub (x ∷ xs) [] = ⊥
Sub (x ∷ xs) (y ∷ ys) = ((x ≡ y) × Sub xs ys) ⊎ Sub (x ∷ xs) ys

pub Sub-skip : (xs : List Payload) (y : Payload) (ys : List Payload) → Sub xs ys → Sub xs (y ∷ ys)
Sub-skip [] y ys s = tt
Sub-skip (x ∷ xs) y ys s = inr s

pub Sub-append :
    (xs ys : List Payload) (p : Payload) → Sub xs ys → Sub (xs ++ (p ∷ [])) (ys ++ (p ∷ []))
Sub-append [] [] p s = inl (refl, tt)
Sub-append [] (y ∷ ys) p s = inr (Sub-append [] ys p tt)
Sub-append (x ∷ xs) [] p s = absurd s
Sub-append (x ∷ xs) (y ∷ ys) p (inl (e, s)) = inl (e, Sub-append xs ys p s)
Sub-append (x ∷ xs) (y ∷ ys) p (inr s) = inr (Sub-append (x ∷ xs) ys p s)

pub Sub-remove :
    (as' : List Payload) (x : Payload) (bs ys : List Payload)
    → Sub (as' ++ (x ∷ bs)) ys
    → Sub (as' ++ bs) ys
Sub-remove [] x bs [] s = absurd s
Sub-remove [] x bs (y ∷ ys) (inl (e, s)) = Sub-skip bs y ys s
Sub-remove [] x bs (y ∷ ys) (inr s) = Sub-skip bs y ys (Sub-remove [] x bs ys s)
Sub-remove (a ∷ as') x bs [] s = absurd s
Sub-remove (a ∷ as') x bs (y ∷ ys) (inl (e, s)) = inl (e, Sub-remove as' x bs ys s)
Sub-remove (a ∷ as') x bs (y ∷ ys) (inr s) = inr (Sub-remove (a ∷ as') x bs ys s)

-- What the sender has in hand.
abbrev pub in_hand : Stage → List Payload
in_hand idle = []
in_hand (refused p) = p ∷ []
in_hand (dropped p) = p ∷ []

-- Everything that is not lost, oldest first.
abbrev pub kept : Channel → List Payload
kept c = c.received ++ (c.items ++ in_hand c.stage)

-- Behind the second `select` there is room.
abbrev HasRoom : ℕ → ℕ → Stage → Type 0
HasRoom n k idle = Unit {0}
HasRoom n k (refused p) = Unit {0}
HasRoom n k (dropped p) = k < n

-- The last entry of a list.
abbrev pub last : List Payload → Option Payload
last [] = none
last (x ∷ xs) = elim (last xs) [ none ↦ some x | some y ↦ some y ]

last-append : (xs : List Payload) (p : Payload) → last (xs ++ (p ∷ [])) ≡ some p
last-append [] p = refl
last-append (x ∷ xs) p = rw (last-append xs p) refl

-- What stands in the middle does not matter.
last_two : (xs ys : List Payload) (p : Payload) → last (xs ++ (ys ++ (p ∷ []))) ≡ some p
last_two xs ys p = ap last (sym (append_assoc xs ys (p ∷ []))) ∙ last-append (xs ++ ys) p

HasRoom-less : (n k : ℕ) (s : Stage) → HasRoom n (suc k) s → HasRoom n k s
HasRoom-less n k idle h = tt
HasRoom-less n k (refused p) h = tt
HasRoom-less n k (dropped p) h = omega arith

pub record IsValid (n : ℕ) (c : Channel) : Type 0 where
  pub bounded : length c.items ≤ n
  pub room : HasRoom n (length c.items) c.stage
  pub order : Sub (kept c) c.handed
  pub newest : last (kept c) ≡ last c.handed

pub new_channel-IsValid : (n : ℕ) → IsValid n new_channel
unfolding new_channel
new_channel-IsValid n = record { bounded = omega arith; room = tt; order = tt; newest = refl }

-- The payload found room.
placed :
    (n : ℕ) (p : Payload) (items handed received : List Payload)
    → length items < n
    → Sub (received ++ (items ++ (p ∷ []))) handed
    → last (received ++ (items ++ (p ∷ []))) ≡ last handed
    → IsValid n
        (record { items = items ++ (p ∷ []); stage = idle; handed = handed; received = received })
placed n p items handed received h o l =
    let same = append-nil (items ++ (p ∷ [])) in
    record {
      bounded = omega (arith, length-append items (p ∷ []));
      room = tt;
      order = rw same o;
      newest = rw same l;
    }

send_at :
    (n : ℕ) (p : Payload) (items handed received : List Payload) (stage : Stage)
    → let c : Channel = record {
      items = items;
      stage = stage;
      handed = handed;
      received = received;
    } in
      IsValid n c → IsValid n (send n p c)
unfolding send try_send
send_at n p items handed received idle v =
    let same = append-nil items in
    let order : Sub (received ++ (items ++ (p ∷ []))) (handed ++ (p ∷ [])) =
      subst (λ t. Sub t (handed ++ (p ∷ []))) (append_assoc received items (p ∷ []))
        (Sub-append (received ++ items) handed p
          (subst (λ t. Sub (received ++ t) handed) same v.order)) in
    let newest : last (received ++ (items ++ (p ∷ []))) ≡ last (handed ++ (p ∷ [])) =
      last_two received items p ∙ sym (last-append handed p) in
    elim (Bool-cases (ltb (length items) n)) [
      | inl e ↦ rw e (placed n p items (handed ++ (p ∷ [])) received (ground arith) order newest)
      | inr e ↦ rw e (record { bounded = v.bounded; room = tt; order = order; newest = newest })
    ]
send_at n p items handed received (refused q) v = v
send_at n p items handed received (dropped q) v = v

send-IsValid : (n : ℕ) (p : Payload) (c : Channel) → IsValid n c → IsValid n (send n p c)
send-IsValid n p c v = send_at n p c.items c.handed c.received c.stage v

go_on_at :
    (n : ℕ) (items handed received : List Payload) (stage : Stage)
    → let c : Channel = record {
      items = items;
      stage = stage;
      handed = handed;
      received = received;
    } in
      0 < n → IsValid n c → IsValid n (go_on n c)
unfolding go_on try_send
go_on_at n items handed received idle h v = v
go_on_at n [] handed received (refused q) h v = record {
  bounded = v.bounded;
  room = h;
  order = v.order;
  newest = v.newest;
}
go_on_at n (x ∷ items) handed received (refused q) h v = record {
  bounded = omega (arith, v.bounded);
  room = omega (arith, v.bounded);
  order = Sub-remove received x (items ++ (q ∷ [])) handed v.order;
  newest = last_two received items q ∙ sym (last_two received (x ∷ items) q) ∙ v.newest;
}
go_on_at n items handed received (dropped q) h v =
    let fits : ltb (length items) n ≡ true = ground (arith, v.room) in
    rw fits (placed n q items handed received v.room v.order v.newest)

go_on-IsValid : (n : ℕ) (c : Channel) → 0 < n → IsValid n c → IsValid n (go_on n c)
go_on-IsValid n c h v = go_on_at n c.items c.handed c.received c.stage h v

receive_at :
    (n : ℕ) (items handed received : List Payload) (stage : Stage)
    → let c : Channel = record {
      items = items;
      stage = stage;
      handed = handed;
      received = received;
    } in
      IsValid n c → IsValid n (receive c)
unfolding receive
receive_at n [] handed received stage v = v
receive_at n (x ∷ items) handed received stage v =
    let same = append_assoc received (x ∷ []) (items ++ in_hand stage) in
    record {
      bounded = omega (arith, v.bounded);
      room = HasRoom-less n (length items) stage v.room;
      order = subst (λ t. Sub t handed) (sym same) v.order;
      newest = ap last same ∙ v.newest;
    }

receive-IsValid : (n : ℕ) (c : Channel) → IsValid n c → IsValid n (receive c)
receive-IsValid n c v = receive_at n c.items c.handed c.received c.stage v

-- On a queue of positive depth that the hub fills for one receiver, any sequence of steps of
-- the sender and the receiver keeps this: the queue is within its depth; what was received,
-- what is queued and what the sender has in hand are, in this order, payloads that were handed
-- over in the order in which they were; and the last payload handed over is the last of them,
-- so that the newest is never given up.
pub act_all-IsValid :
    (n : ℕ) (as' : List Action) (c : Channel) → 0 < n → IsValid n c → IsValid n (act_all n as' c)
unfolding act_all act
act_all-IsValid n [] c h v = v
act_all-IsValid n (sends p ∷ as') c h v = act_all-IsValid n as' _ h (send-IsValid n p c v)
act_all-IsValid n (goes_on ∷ as') c h v = act_all-IsValid n as' _ h (go_on-IsValid n c h v)
act_all-IsValid n (receives ∷ as') c h v = act_all-IsValid n as' _ h (receive-IsValid n c v)
