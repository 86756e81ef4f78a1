-- ===== src/Client/Full.antt =====
-- A full channel of a subscription holds up all calls: the receiver waits for room in it.
use zbc_go.Common.{
  ℕ, ◌+◌, ◌<◌, ◌≡◌, refl, sym, ap, arith, ◌∙◌, ◌==◌, if◌then◌else◌, Bool-cases, inl, inr, Option,
  List, [], ◌∷◌, ◌++◌, length,
}
use zbc_go.Wire.{Bytes, ok}
use zbc_go.Message.{Message}
use zbc_go.Request.Values.{Data}
use zbc_go.Client.{subscription_channel, Receiver, sending}
use zbc_go.Client.Steps.{Phase, returned, Call, System, register, finish}
use zbc_go.Client.Steps.{receiver_turn}
use zbc_go.Client.Steps.{Step, responder, send_failed, sent, respond, time_out, receiver_round}
use zbc_go.Client.Steps.{event_queued, event_taken, event_handed, subscribed, Steps, stop, ◌then◌}
use zbc_go.Client.Events.{taken, all_taken}

abbrev answers_of : {D : Type 0} → Phase D → ℕ
answers_of (returned (ok m)) = 1
answers_of _ = 0

-- How many calls have got a response.
abbrev pub answered : {D : Type 0} → List (Call D) → ℕ
answered [] = 0
answered (c ∷ calls) = answers_of c.phase + answered calls

answered-append :
    {D : Type 0} (xs ys : List (Call D)) → answered (xs ++ ys) ≡ answered xs + answered ys
answered-append [] ys = omega arith
answered-append (c ∷ xs) ys = omega (arith, answered-append xs ys)

-- A call changes, and has no response before or after.
answered-replace :
    {D : Type 0} (before after : List (Call D)) (c c' : Call D) (calls : List (Call D))
    → calls ≡ before ++ c ∷ after
    → answers_of c.phase ≡ answers_of c'.phase
    → answered (before ++ c' ∷ after) ≡ answered calls
answered-replace before after c c' calls at_call same = omega (
  arith,
  ap answered at_call,
  answered-append before (c ∷ after),
  answered-append before (c' ∷ after),
  same,
)

module _ {X : Type 0} (unmarshal : Bytes → Option (Data X)) (n capacity : ℕ)
    (m : Message (Data X)) where
  same_channel :
      (k size : ℕ) (e : Message (Data X))
      → ◌≡◌ {A = Receiver (Data X)}
          (sending (subscription_channel k size) e)
          (sending (subscription_channel n capacity) m)
      → (k ≡ n) × (size ≡ capacity)
  same_channel k size e p = (
    ap (λ r. elim r [ sending ch _ ↦ elim ch [ subscription_channel a b ↦ a | _ ↦ 0 ] | _ ↦ 0 ]) p,
    ap (λ r. elim r [ sending ch _ ↦ elim ch [ subscription_channel a b ↦ b | _ ↦ 0 ] | _ ↦ 0 ]) p,
  )

  -- The receiver waits to send on a channel that is full.
  pub record IsFull (s : System X) : Type 0 where
    pub at_send : s.receiver ≡ sending (subscription_channel n capacity) m
    pub full : length (s.queues n) ≡ capacity

  Step-IsFull :
      {s t : System X} (step : Step unmarshal s t)
      → 0 < capacity
      → taken unmarshal n step ≡ []
      → IsFull s
      → IsFull t × (answered t.calls ≡ answered s.calls)
  unfolding register finish receiver_turn taken
  Step-IsFull (responder m id known) some_room none_taken h =
      (record { at_send = h.at_send; full = h.full }, omega arith)
  Step-IsFull (send_failed {s} conn_write e m id before after at_call failed) some_room none_taken
        h =
      (
        record { at_send = h.at_send; full = h.full },
        answered-replace before after _ _ s.calls at_call refl,
      )
  Step-IsFull (sent {s} conn_write m id before after at_call done) some_room none_taken h = (
    record { at_send = h.at_send; full = h.full },
    answered-replace before after _ _ s.calls at_call refl,
  )
  Step-IsFull (respond response m id k c before after at_call at_send) some_room none_taken h =
      absurd (let at = h.at_send in cc)
  Step-IsFull (time_out {s} ch m id before after at_call) some_room none_taken h = (
    record { at_send = h.at_send; full = h.full },
    answered-replace before after _ _ s.calls at_call refl,
  )
  Step-IsFull (receiver_round at_idle) some_room none_taken h = absurd (let at = h.at_send in cc)
  Step-IsFull (event_queued {s} e k size at_send room) some_room none_taken h = absurd (
      let (channel, same) = same_channel k size e (sym at_send ∙ h.at_send) in
      omega (arith, room, same, h.full, ap (λ i. length (s.queues i)) channel))
  Step-IsFull (event_taken {s} e k rest at_queue) some_room none_taken h = (
    record {
      at_send = h.at_send;
      full = elim (Bool-cases (n == k)) [
        | inl here ↦ absurd (let none : e ∷ [] ≡ [] = rw here at none_taken in cc)
        | inr other ↦ rw other h.full
      ];
    },
    refl,
  )
  Step-IsFull (event_handed e k at_send) some_room none_taken h = absurd (
      let (channel, same) = same_channel k 0 e (sym at_send ∙ h.at_send) in
      omega (arith, some_room, same))
  Step-IsFull (subscribed ts response m id c before after at_call opened) some_room none_taken h =
      (record { at_send = h.at_send; full = h.full }, refl)

  append_nil : {A : Type 0} (xs ys : List A) → xs ++ ys ≡ [] → (xs ≡ []) × (ys ≡ [])
  append_nil [] ys e = (refl, e)
  append_nil (x ∷ xs) ys e = cc

  -- While the receiver waits to send an event on a full channel, and the user of this channel takes no
  -- event out of it, the receiver waits there, and no call of Responder gets a response, whatever the
  -- other goroutines do; the channel has a buffer.
  pub full-unanswered :
      {s t : System X} (steps : Steps unmarshal s t)
      → 0 < capacity
      → s.receiver ≡ sending (subscription_channel n capacity) m
      → length (s.queues n) ≡ capacity
      → all_taken unmarshal n steps ≡ []
      → (t.receiver ≡ sending (subscription_channel n capacity) m)
        × (answered t.calls ≡ answered s.calls)
  unfolding all_taken
  full-unanswered stop some_room at_send full none_taken = (at_send, refl)
  full-unanswered (step then steps) some_room at_send full none_taken =
      let (first, later) = append_nil _ _ none_taken in
      let (h, same) =
        Step-IsFull step some_room first (record { at_send = at_send; full = full }) in
      let (waits, rest) = full-unanswered steps some_room h.at_send h.full later in
      (waits, rest ∙ same)
