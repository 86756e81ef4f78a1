-- ===== src/Client/Promise.antt =====
-- What the client of zbc/client.go promises, without its tables, its connection and its receiver: the
-- calls of Responder with their results, the channels of subscriptions, and what is done with them.
pub mod Laws
use zbc_go.Common.{
  ℕ, ◌<◌, ◌≡◌, ◌==◌, if◌then◌else◌, Option, none, some, List, [], ◌∷◌, ◌++◌, length,
}
use zbc_go.Wire.{Error, Outcome, ok, err}
use zbc_go.Sbe.SubscribedEvent.{SubscribedEvent}
use zbc_go.Message.{Message}
use zbc_go.Request.{as_subscribed_event}
use zbc_go.Request.Values.{Data}
use zbc_go.Client.{request_id_of}

-- A call of Responder, and what it has returned.
pub record Asked (D : Type 0) : Type 0 where
  pub message : Message D
  pub request_id : ℕ
  pub result : Option (Outcome (Message D))

abbrev pub asked : {D : Type 0} → Message D → ℕ → Option (Outcome (Message D)) → Asked D
asked m id result = record { message = m; request_id = id; result = result }

-- The subscriber key of a subscription, and its credits.
pub record Subscription : Type 0 where
  pub key : ℕ
  pub credits : ℕ

pub record Promise (X : Type 0) : Type 0 where
  pub calls : List (Asked (Data X))
  pub channels : ℕ → Option Subscription
  pub queues : ℕ → List (Message (Data X))

abbrev pub nothing_asked : {X : Type 0} → Promise X
nothing_asked = record { calls = []; channels = λ _. none; queues = λ _. [] }

-- What users and receiver see: a call begins, or returns; a channel is opened; an event goes into a
-- channel, or is taken out of it, or is handed over through a channel that has no buffer.
pub data Action (X : Type 0) : Type 0 where
  asks : ℕ → Message (Data X) → Action X
  returns : ℕ → Message (Data X) → Outcome (Message (Data X)) → Action X
  opens : ℕ → Subscription → Action X
  pushes pops hands : ℕ → Message (Data X) → Action X

-- The message is an event with the subscriber key `k`.
abbrev pub HasKey : {X : Type 0} → ℕ → Message (Data X) → Type 0
HasKey k m =
    (s : SubscribedEvent) × (as_subscribed_event m.sbe_message ≡ ok s) × (s.subscriber_key ≡ k)

abbrev pub with_channel : ℕ → Subscription → (ℕ → Option Subscription) → ℕ → Option Subscription
with_channel n sub channels k = if k == n then some sub else channels k

module _ {X : Type 0} where
  abbrev pub set_calls : List (Asked (Data X)) → Promise X → Promise X
  set_calls calls p = record p { calls = calls }

  abbrev pub set_queue : ℕ → List (Message (Data X)) → Promise X → Promise X
  set_queue n queue p = record p { queues = λ k. if k == n then queue else p.queues k }

  -- A call that has no result gets an answer to its own request, or an error. A channel is opened once.
  -- An event that goes into a channel has its key, and there is room for it by the credits.
  pub data Allowed : Action X → Promise X → Promise X → Type 0 where
    ask :
        {p : Promise X} (m : Message (Data X)) (id : ℕ)
        → request_id_of (some m) ≡ ok id
        → Allowed (asks id m) p (set_calls (asked m id none ∷ p.calls) p)
    answer :
        {p : Promise X} (response m : Message (Data X)) (id : ℕ)
        (before after : List (Asked (Data X)))
        → p.calls ≡ before ++ asked m id none ∷ after
        → request_id_of (some response) ≡ ok id
        → Allowed
            (returns id m (ok response))
            p
            (set_calls (before ++ asked m id (some (ok response)) ∷ after) p)
    fail :
        {p : Promise X} (e : Error) (m : Message (Data X)) (id : ℕ)
        (before after : List (Asked (Data X)))
        → p.calls ≡ before ++ asked m id none ∷ after
        → Allowed
            (returns id m (err e))
            p
            (set_calls (before ++ asked m id (some (err e)) ∷ after) p)
    open_channel :
        {p : Promise X} (n : ℕ) (sub : Subscription)
        → p.channels n ≡ none
        → Allowed (opens n sub) p (record p { channels = with_channel n sub p.channels })
    push :
        {p : Promise X} (m : Message (Data X)) (n : ℕ) (sub : Subscription)
        → p.channels n ≡ some sub
        → HasKey sub.key m
        → length (p.queues n) < sub.credits
        → Allowed (pushes n m) p (set_queue n (p.queues n ++ m ∷ []) p)
    pop :
        {p : Promise X} (m : Message (Data X)) (n : ℕ) (rest : List (Message (Data X)))
        → p.queues n ≡ m ∷ rest
        → Allowed (pops n m) p (set_queue n rest p)
    hand :
        {p : Promise X} (m : Message (Data X)) (n : ℕ) (sub : Subscription)
        → p.channels n ≡ some sub
        → HasKey sub.key m
        → sub.credits ≡ 0
        → Allowed (hands n m) p p

  pub data Kept : List (Action X) → Promise X → Promise X → Type 0 where
    stays : {p : Promise X} → Kept [] p p
    goes :
        {a : Action X} {trace : List (Action X)} {p q r : Promise X}
        → Allowed a p q
        → Kept trace q r
        → Kept (a ∷ trace) p r
