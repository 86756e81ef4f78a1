-- ===== src/Client/Matching/Keyed.antt =====
-- What the promise says of the channel of a subscription.
use zbc_go.Common.{ℕ, ◌+◌, ◌≤◌, ◌≡◌, refl, ap, arith, eq→==, Option, some, length, All, pos}
use zbc_go.Wire.{Bytes, ok}
use zbc_go.Message.{Message}
use zbc_go.Request.{TaskSubscription}
use zbc_go.Request.Values.{Data}
use zbc_go.Reader.Buffer.{Connection}
use zbc_go.Client.{subscription_channel, Client, subscribe, subscriber_key_of}
use zbc_go.Client.Promise.{Subscription, Promise, HasKey, with_channel}
use zbc_go.Client.Promise.Laws.{IsOpen, Kept-IsOpen, Kept-opened, Kept-closed}
use zbc_go.Client.Subscribed.{subscription_of-eq, subscribe-entry}
use zbc_go.Client.Steps.{System, initial, Steps}
use zbc_go.Client.Matching.Turns.{Steps-Matches, initial-Matches, subscribed-Matches}
use zbc_go.Client.Matching.Refinement.{Shows, subscribed-Shows}
use zbc_go.Client.Matching.Simulation.{Steps-Kept, client-Kept}

module _ {X : Type 0} (unmarshal : Bytes → Option (Data X)) where
  -- From a new client on, in whatever order the receiver, the calls of Responder and the users of
  -- subscriptions take their steps, what is in the channel under a subscriber key are events that carry
  -- this key.
  pub queue-subscriber_key :
      (conn : Connection) (s : System X) (k n capacity : ℕ)
      → Steps unmarshal (initial conn) s
      → s.client.subscriptions k ≡ subscription_channel n capacity
      → All (HasKey k) (s.queues n)
  queue-subscriber_key conn s k n capacity steps at_key =
      let (p, kept, shown) = client-Kept unmarshal conn s steps in
      let sub : Subscription = record { key = k; credits = capacity } in
      let opened : p.channels n ≡ some sub = rw at_key at (shown.stored k) in
      let h = Kept-opened n sub kept opened in
      rw (ap (λ queues. queues n) shown.queues_shown) at h.own

  -- In a client that a new one reaches, once TaskConsumer has made a channel for a subscription whose
  -- credits are not negative, and stored it by the response, the channel is the one under the
  -- subscriber key of the response; and in every later state it holds no more events than the credits
  -- of the subscription, all of which carry this key.
  pub subscription-bounded :
      (conn : Connection) (s u : System X) (ts : TaskSubscription) (response : Message (Data X))
      (c : Client) (credits k : ℕ)
      → Steps unmarshal (initial conn) s
      → ts.credits ≡ pos credits
      → subscriber_key_of response ≡ ok k
      → subscribe s.serial ts response s.client ≡ ok c
      → Steps unmarshal (record s { client = c; serial = s.serial + 1 }) u
      → (c.subscriptions k ≡ subscription_channel s.serial credits)
        × (length (u.queues s.serial) ≤ credits)
        × All (HasKey k) (u.queues s.serial)
  subscription-bounded conn s u ts response c credits k steps positive key opened steps' =
      let (p, kept, shown) = client-Kept unmarshal conn s steps in
      let sub : Subscription = record { key = k; credits = credits } in
      let its = subscription_of-eq ts response credits k positive key in
      let n = s.serial in
      let fresh = shown.unused n (omega arith) in
      let empty = Kept-closed n kept fresh in
      let opened_promise : Promise X = record p { channels = with_channel n sub p.channels } in
      let shows : Shows opened_promise (record s { client = c; serial = n + 1 }) =
        rw its at (subscribed-Shows unmarshal p s ts response c opened shown) in
      let start : IsOpen n sub opened_promise = record {
        opened = rw (eq→== n n refl) refl;
        own = rw empty tt;
        bounded = rw empty (omega arith);
      } in
      let matches =
        subscribed-Matches unmarshal s ts response c opened
          (Steps-Matches unmarshal steps (initial-Matches unmarshal conn)) in
      let (q, kept', shown') = Steps-Kept unmarshal steps' opened_promise matches shows in
      let h = Kept-IsOpen n sub kept' start in
      let same = ap (λ queues. queues n) shown'.queues_shown in
      (
        subscribe-entry n ts response s.client c credits k positive key opened,
        omega (arith, h.bounded, ap length same),
        rw same at h.own,
      )
