-- ===== src/Client/Matching/Keys.antt =====
-- Subscriber channels: a round of the receiver sends an event on the channel of the key in it.
use zbc_go.Common.{ℕ, ◌≡◌, refl, Option, none, some}
use zbc_go.Wire.{Bytes, Outcome, ok, err, panic}
use zbc_go.Protocol.{RequestResponseHeader}
use zbc_go.Message.{Message}
use zbc_go.Sbe.SubscribedEvent.{SubscribedEvent}
use zbc_go.Request.Values.{Data}
use zbc_go.Request.{as_subscribed_event}
use zbc_go.Reader.Headers.{Found}
use zbc_go.Client.{Channel, nil_channel, response_channel, subscription_channel}
use zbc_go.Client.{Client, forget, Receiver, idle, sending, crashed, event_round, dispatch}
use zbc_go.Client.{round_found, receive}
use zbc_go.Client.Promise.{Subscription, HasKey, with_channel}
use zbc_go.Client.Promise.Laws.{with_channel-old}
use zbc_go.Client.Matching.{Answers}

-- The channels of the promise: which subscription each stored channel belongs to.
abbrev pub Stored : (ℕ → Option Subscription) → ℕ → Channel → Type 0
Stored channels k nil_channel = Unit
Stored channels k (response_channel id n) = Unit
Stored channels k (subscription_channel n capacity) =
    channels n ≡ some (record { key = k; credits = capacity })

abbrev pub Carries : {X : Type 0} → (ℕ → Option Subscription) → Channel → Message (Data X) → Type 0
Carries channels nil_channel m = Unit
Carries channels (response_channel id n) m = Unit
Carries channels (subscription_channel n capacity) m =
    (k : ℕ) × (channels n ≡ some (record { key = k; credits = capacity })) × HasKey k m

abbrev pub Pushes : {X : Type 0} → (ℕ → Option Subscription) → Receiver (Data X) → Type 0
Pushes channels idle = Unit
Pushes channels (crashed p) = Unit
Pushes channels (sending ch m) = Carries channels ch m

abbrev pub AllStored : (ℕ → Option Subscription) → Client → Type 0
AllStored channels c = (k : ℕ) → Stored channels k (c.subscriptions k)

module _ (channels : ℕ → Option Subscription) where
  -- A new channel does not matter for those that are stored.
  pub Stored-next :
      (serial : ℕ) (new : Subscription) (k : ℕ) (ch : Channel)
      → channels serial ≡ none
      → Stored channels k ch
      → Stored (with_channel serial new channels) k ch
  Stored-next serial new k nil_channel fresh h = tt
  Stored-next serial new k (response_channel id n) fresh h = tt
  Stored-next serial new k (subscription_channel n capacity) fresh h =
      with_channel-old channels serial n new _ fresh h

  module _ {X : Type 0} where
    Carries-next :
        (serial : ℕ) (new : Subscription) (ch : Channel) (m : Message (Data X))
        → channels serial ≡ none
        → Carries channels ch m
        → Carries (with_channel serial new channels) ch m
    Carries-next serial new nil_channel m fresh h = tt
    Carries-next serial new (response_channel id n) m fresh h = tt
    Carries-next serial new (subscription_channel n capacity) m fresh (k, at_channel, event) =
        (k, with_channel-old channels serial n new _ fresh at_channel, event)

    answer-Carries :
        (id : ℕ) (ch : Channel) (m : Message (Data X)) → Answers id ch → Carries channels ch m
    answer-Carries id nil_channel m own = tt
    answer-Carries id (response_channel k n) m own = tt
    answer-Carries id (subscription_channel n capacity) m own = absurd own

    event-Carries :
        (s : SubscribedEvent) (ch : Channel) (m : Message (Data X))
        → as_subscribed_event m.sbe_message ≡ ok s
        → Stored channels s.subscriber_key ch
        → Carries channels ch m
    event-Carries s nil_channel m event stored = tt
    event-Carries s (response_channel k n) m event stored = tt
    event-Carries s (subscription_channel n capacity) m event stored =
        (s.subscriber_key, stored, (s, event, refl))

    found-Pushes :
        (m : Message (Data X)) (c : Client) (x : Outcome SubscribedEvent)
        → AllStored channels c
        → as_subscribed_event m.sbe_message ≡ x
        → Pushes {X = X} channels (elim x [
          | ok s ↦ sending (c.subscriptions s.subscriber_key) m
          | err _ ↦ idle
          | panic p ↦ crashed p
        ])
    found-Pushes m c (ok s) stored event = event-Carries s _ m event (stored s.subscriber_key)
    found-Pushes m c (err e) stored event = tt
    found-Pushes m c (panic p) stored event = tt

    event_round-Pushes :
        (m : Message (Data X)) (c : Client)
        → AllStored channels c
        → Pushes channels (event_round m c)
    unfolding event_round
    event_round-Pushes m c stored = found-Pushes m c _ stored refl

    pub receiver-next :
        (serial : ℕ) (new : Subscription) (r : Receiver (Data X))
        → channels serial ≡ none
        → Pushes channels r
        → Pushes (with_channel serial new channels) r
    receiver-next serial new idle fresh h = tt
    receiver-next serial new (crashed p) fresh h = tt
    receiver-next serial new (sending ch m) fresh h = Carries-next serial new ch m fresh h

    abbrev RoundPushes : Receiver (Data X) × Client → Type 0
    RoundPushes (r, c) = Pushes channels r × AllStored channels c

    module _ (c : Client) (own : (id : ℕ) → Answers id (c.transactions id))
        (stored : AllStored channels c) where
      dispatch-RoundPushes :
          (rr : Option RequestResponseHeader) (x : Outcome (Message (Data X)))
          → RoundPushes (dispatch rr x c)
      unfolding dispatch forget
      dispatch-RoundPushes (some r) (ok m) =
          (answer-Carries r.request_id _ m (own r.request_id), stored)
      dispatch-RoundPushes (some r) (err e) = (tt, stored)
      dispatch-RoundPushes (some r) (panic p) = (tt, stored)
      dispatch-RoundPushes none (ok m) = (event_round-Pushes m c stored, stored)
      dispatch-RoundPushes none (err e) = (tt, stored)
      dispatch-RoundPushes none (panic p) = (tt, stored)

      round_found-RoundPushes :
          (unmarshal : Bytes → Option (Data X)) (found : Outcome Found)
          → RoundPushes (round_found unmarshal found c)
      unfolding round_found
      round_found-RoundPushes unmarshal (ok none) = (tt, stored)
      round_found-RoundPushes unmarshal (ok (some (h, tail))) = dispatch-RoundPushes _ _
      round_found-RoundPushes unmarshal (err e) = (tt, stored)
      round_found-RoundPushes unmarshal (panic p) = (tt, stored)

    pub receive-RoundPushes :
        (unmarshal : Bytes → Option (Data X)) (c : Client)
        → ((id : ℕ) → Answers id (c.transactions id))
        → AllStored channels c
        → RoundPushes (receive unmarshal c)
    unfolding receive
    receive-RoundPushes unmarshal c own stored = round_found-RoundPushes _ own stored unmarshal _
