-- ===== src/Client/Matching/Lost.antt =====
-- A channel that no send can reach any more, and the call that waits on it.
use zbc_go.Common.{ℕ, ◌+◌, ◌<◌, ◌≡◌, ◌≢◌, ap, arith, if◌then◌else◌, inl, inr, ◌⊎◌, Option}
use zbc_go.Wire.{Bytes, err, timeout}
use zbc_go.Message.{Message}
use zbc_go.Request.Values.{Data}
use zbc_go.Reader.Buffer.{Connection}
use zbc_go.Client.{Channel, nil_channel, response_channel, subscription_channel}
use zbc_go.Client.{new_client}
use zbc_go.Client.Steps.{unsent, waiting, returned, Call, call, System, initial, register, finish}
use zbc_go.Client.Steps.{receiver_turn}
use zbc_go.Client.Steps.{Step, responder, send_failed, sent, respond, time_out, receiver_round}
use zbc_go.Client.Steps.{event_queued, event_taken, event_handed, subscribed, Steps, stop, ◌then◌}
use zbc_go.Client.Places.{SomeAt, SomeAt-cons, SomeAt-replace}
use zbc_go.Client.Channels.{SendsOn}
use zbc_go.Client.Matching.Everywhere.{Everywhere, Step-Everywhere}

-- A channel that was made before the serial number was reached.
abbrev pub Made : ℕ → Channel → Type 0
Made serial nil_channel = Unit
Made serial (response_channel id n) = n < serial
Made serial (subscription_channel n capacity) = Unit

-- Not the channel `n` of the request `id`.
abbrev pub Apart : ℕ → ℕ → Channel → Type 0
Apart id n ch = ch ≢ response_channel id n

Made-later : (n : ℕ) (ch : Channel) → Made n ch → Made (n + 1) ch
Made-later n nil_channel h = tt
Made-later n (response_channel id m) h = omega (arith, h)
Made-later n (subscription_channel m capacity) h = tt

pub nil-Apart : (id n : ℕ) → Apart id n nil_channel
nil-Apart id n e = cc

pub subscription-Apart : (id n m capacity : ℕ) → Apart id n (subscription_channel m capacity)
subscription-Apart id n m capacity e = cc

serial_of : Channel → ℕ
serial_of nil_channel = 0
serial_of (response_channel id n) = n
serial_of (subscription_channel n capacity) = n

fresh-Apart : (id n k serial : ℕ) → n < serial → Apart id n (response_channel k serial)
unfolding serial_of
fresh-Apart id n k serial old e = let same : serial ≡ n = ap serial_of e in omega (arith, same, old)

-- A call that has no answer: it waits on the channel, or has timed out.
abbrev pub Unanswered : {D : Type 0} → Message D → ℕ → Channel → Call D → Type 0
Unanswered q id ch c = (c ≡ call q id (waiting ch)) ⊎ (c ≡ call q id (returned (err timeout)))

module _ {X : Type 0} (unmarshal : Bytes → Option (Data X)) where
  Step-Made : {s t : System X} → Step unmarshal s t → Everywhere Made s → Everywhere Made t
  Step-Made step h =
      Step-Everywhere unmarshal Made (λ n. tt) Made-later (λ n m capacity. tt) (λ id. omega arith)
        step h

  pub Steps-Made : {s t : System X} → Steps unmarshal s t → Everywhere Made s → Everywhere Made t
  Steps-Made stop h = h
  Steps-Made (step then steps) h = Steps-Made steps (Step-Made step h)

  pub initial-Made : (conn : Connection) → Everywhere {X = X} Made (initial conn)
  unfolding initial new_client
  initial-Made conn = record {
    tables = record { own = λ id. tt; events = λ k. tt };
    receiver_has = tt;
  }

  Step-serial : {s t : System X} (n : ℕ) → Step unmarshal s t → n < s.serial → n < t.serial
  unfolding register finish receiver_turn
  Step-serial n (responder m id known) h = omega (arith, h)
  Step-serial n (send_failed conn_write e m id before after at_call failed) h = h
  Step-serial n (sent conn_write m id before after at_call done) h = h
  Step-serial n (respond response m id k i before after at_call at_send) h = h
  Step-serial n (time_out ch m id before after at_call) h = h
  Step-serial n (receiver_round at_idle) h = h
  Step-serial n (event_queued m i capacity at_send room) h = h
  Step-serial n (event_taken m i rest at_queue) h = h
  Step-serial n (event_handed m i at_send) h = h
  Step-serial n (subscribed ts response m id c before after at_call opened) h = omega (arith, h)

  module _ (q : Message (Data X)) (id n place : ℕ) where
    -- The channel `n` of the request `id`, which no send can reach, and the call that waits on it.
    pub record IsLost (s : System X) : Type 0 where
      pub everywhere : Everywhere (λ _. Apart id n) s
      pub old : n < s.serial
      pub unanswered : SomeAt (Unanswered q id (response_channel id n)) place s.calls

    abbrev IsOpen : Call (Data X) → Type 0
    IsOpen = Unanswered q id (response_channel id n)

    unsent-closed :
        (m' : Message (Data X)) (id' : ℕ) (c : Call (Data X))
        → IsOpen (call m' id' unsent)
        → IsOpen c
    unsent-closed m' id' c (inl e) = absurd cc
    unsent-closed m' id' c (inr e) = absurd cc

    answer-closed :
        (m' : Message (Data X)) (id' : ℕ) (ch : Channel) (c : Call (Data X))
        → Apart id n ch
        → IsOpen (call m' id' (waiting ch))
        → IsOpen c
    answer-closed m' id' ch c apart (inl e) = absurd (apart cc)
    answer-closed m' id' ch c apart (inr e) = absurd cc

    timeout-IsOpen :
        (m' : Message (Data X)) (id' : ℕ) (ch : Channel)
        → IsOpen (call m' id' (waiting ch))
        → IsOpen (call m' id' (returned (err timeout)))
    timeout-IsOpen m' id' ch (inl e) =
        inr (ap (λ c. call c.message c.request_id (returned (err timeout))) e)
    timeout-IsOpen m' id' ch (inr e) = absurd cc

    Step-unanswered :
        {s t : System X}
        → Step unmarshal s t
        → SendsOn (Apart id n) s.receiver
        → SomeAt IsOpen place s.calls
        → SomeAt IsOpen place t.calls
    unfolding register finish receiver_turn
    Step-unanswered (responder {s} m' id' known) apart h = SomeAt-cons IsOpen place _ s.calls h
    Step-unanswered (send_failed {s} conn_write e m' id' before after at_call failed) apart h =
        SomeAt-replace IsOpen place _ _ s.calls before after (unsent-closed m' id' _) at_call h
    Step-unanswered (sent {s} conn_write m' id' before after at_call done) apart h =
        SomeAt-replace IsOpen place _ _ s.calls before after (unsent-closed m' id' _) at_call h
    Step-unanswered (respond {s} response m' id' k i before after at_call at_send) apart h =
        SomeAt-replace IsOpen place _ _ s.calls before after
          (answer-closed m' id' (response_channel k i) _ (rw at_send at apart)) at_call h
    Step-unanswered (time_out {s} ch m' id' before after at_call) apart h =
        SomeAt-replace IsOpen place _ _ s.calls before after (timeout-IsOpen m' id' ch) at_call h
    Step-unanswered (receiver_round at_idle) apart h = h
    Step-unanswered (event_queued e k capacity at_send room) apart h = h
    Step-unanswered (event_taken e k rest at_queue) apart h = h
    Step-unanswered (event_handed e k at_send) apart h = h
    Step-unanswered (subscribed ts response m' id' c before after at_call opened) apart h = h

    Step-IsLost : {s t : System X} → Step unmarshal s t → IsLost s → IsLost t
    Step-IsLost {s} step h = record {
      everywhere =
          Step-Everywhere unmarshal (λ _. Apart id n) (λ _. nil-Apart id n) (λ _ ch apart. apart)
            (λ _. subscription-Apart id n) (λ k. fresh-Apart id n k s.serial h.old) step
            h.everywhere;
      old = Step-serial n step h.old;
      unanswered = Step-unanswered step h.everywhere.receiver_has h.unanswered;
    }

    pub Steps-IsLost : {s t : System X} → Steps unmarshal s t → IsLost s → IsLost t
    Steps-IsLost stop h = h
    Steps-IsLost (step then steps) h = Steps-IsLost steps (Step-IsLost step h)
