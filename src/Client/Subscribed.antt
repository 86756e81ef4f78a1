-- ===== src/Client/Subscribed.antt =====
-- TaskConsumer and the events of its subscription.
use zbc_go.Common.{pos, ℕ, ◌≡◌, refl, sym, ap, ◌∙◌, ==_iff, Option, none, some, ◌∷◌}
use zbc_go.Wire.{Bytes, Outcome, ok, err, panic}
use zbc_go.Wire.Outcomes.{◌>>=◌}
use zbc_go.Protocol.{FrameHeader, TransportHeader}
use zbc_go.Sbe.MessageHeader.{MessageHeader}
use zbc_go.Sbe.SubscribedEvent.{SubscribedEvent}
use zbc_go.Message.{Message, subscribed_event}
use zbc_go.Writer.Laws.{full_message}
use zbc_go.Reader.Buffer.{Connection}
use zbc_go.Request.Values.{Data}
use zbc_go.Request.{TaskSubscription}
use zbc_go.Client.{
  Channel, subscription_channel, make_channel, subscribe, Client, Table, put, sending, receive,
  open_subscription, subscriber_key_of,
}
use zbc_go.Client.Promise.{Subscription}
use zbc_go.Client.Delivery.{Sent, receive-event}

pub put-eq : (k : ℕ) (ch : Channel) (table : Table) → put k ch table k ≡ ch
unfolding put
put-eq k ch table = rw ((==_iff k k).1 refl)

open_subscription-entry :
    {X : Type 0} (response : Message (Data X)) (ch : Channel) (c c' : Client) (k : ℕ)
    → open_subscription response ch c ≡ ok c'
    → subscriber_key_of response ≡ ok k
    → c'.subscriptions k ≡ ch
unfolding open_subscription
open_subscription-entry response ch c c' k opened key =
    let stored : ok (record c { subscriptions = put k ch c.subscriptions }) ≡ ok c' =
      rw (open_subscription, key, ◌>>=◌) at opened in
    let same : record c { subscriptions = put k ch c.subscriptions } ≡ c' =
      ap (λ x. elim x [ ok a ↦ a | _ ↦ c ]) stored in
    ap (λ a. a.subscriptions k) (sym same) ∙ put-eq k ch c.subscriptions

value_of : Outcome ℕ → ℕ
value_of (ok n) = n
value_of (err _) = 0
value_of (panic _) = 0

-- The subscription that TaskConsumer opens: the key of the response, and the credits.
unfoldable pub subscription_of : {X : Type 0} → TaskSubscription → Message (Data X) → Subscription
unfolding value_of
subscription_of ts response = record {
  key = value_of (subscriber_key_of response);
  credits = value_of (make_channel ts.credits);
}

both-stored :
    (x y : Outcome ℕ) (serial : ℕ) (c c' : Client)
    → (do
      n ← x
      k ← y
      ok (record c { subscriptions = put k (subscription_channel serial n) c.subscriptions }))
      ≡ ok c'
    → record c {
      subscriptions = put (value_of y) (subscription_channel serial (value_of x)) c.subscriptions;
    }
      ≡ c'
unfolding value_of
both-stored (ok n) (ok k) serial c c' stored = ap (λ z. elim z [ ok d ↦ d | _ ↦ c ]) stored
both-stored (ok n) (err e) serial c c' stored = absurd cc
both-stored (ok n) (panic p) serial c c' stored = absurd cc
both-stored (err e) y serial c c' stored = absurd cc
both-stored (panic p) y serial c c' stored = absurd cc

pub subscribe-eq :
    {X : Type 0} (serial : ℕ) (ts : TaskSubscription) (response : Message (Data X)) (c c' : Client)
    → subscribe serial ts response c ≡ ok c'
    → record c {
      subscriptions =
          put
            (subscription_of ts response).key
            (subscription_channel serial (subscription_of ts response).credits)
            c.subscriptions;
    }
      ≡ c'
unfolding subscribe open_subscription subscription_of
subscribe-eq serial ts response c c' =
    both-stored (make_channel ts.credits) (subscriber_key_of response) serial c c'

pub subscription_of-eq :
    {X : Type 0} (ts : TaskSubscription) (response : Message (Data X)) (n k : ℕ)
    → ts.credits ≡ pos n
    → subscriber_key_of response ≡ ok k
    → subscription_of ts response ≡ record { key = k; credits = n }
unfolding subscription_of make_channel value_of
subscription_of-eq ts response n k positive key = rw (positive, key) refl

pub subscribe-entry :
    {X : Type 0} (serial : ℕ) (ts : TaskSubscription) (response : Message (Data X)) (c c' : Client)
    (n k : ℕ)
    → ts.credits ≡ pos n
    → subscriber_key_of response ≡ ok k
    → subscribe serial ts response c ≡ ok c'
    → c'.subscriptions k ≡ subscription_channel serial n
subscribe-entry serial ts response c c' n k positive key opened =
    ap (λ d. d.subscriptions k) (sym (subscribe-eq serial ts response c c' opened))
    ∙ ap (λ sub. put sub.key (subscription_channel serial sub.credits) c.subscriptions k)
        (subscription_of-eq ts response n k positive key)
    ∙ put-eq k (subscription_channel serial n) c.subscriptions

module _ {X : Type 0} (unmarshal : Bytes → Option (Data X)) (f : FrameHeader) (t : TransportHeader)
    (m : MessageHeader) where
  -- Once TaskConsumer has stored its channel under the subscriber key of a response, an event with this
  -- key and with right parts (Sent), delivered in one segment, goes on this channel.
  pub subscribed-event :
      (response : Message (Data X)) (ch : Channel) (c c' : Client) (s : SubscribedEvent)
      (d : Data X) (bs : Bytes) (later : Connection)
      → open_subscription response ch c ≡ ok c'
      → subscriber_key_of response ≡ ok s.subscriber_key
      → Sent unmarshal f t m none (subscribed_event s) d bs
      → c'.connection ≡ bs ∷ later
      → receive unmarshal c' ≡ (
        sending ch (full_message f t none m (subscribed_event s) (some d)),
        record c' { connection = later },
      )
  subscribed-event response ch c c' s d bs later opened key sent arrives =
      let entry = open_subscription-entry response ch c c' s.subscriber_key opened key in
      receive-event unmarshal f t m s d bs c' later sent arrives
      ∙ ap
          (λ channel. (
            sending channel (full_message f t none m (subscribed_event s) (some d)),
            record c' { connection = later },
          ))
          entry
