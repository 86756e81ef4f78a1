-- ===== src/Client/Matching.antt =====
-- What makes the client's channels lead to the right callers.
pub mod Rounds
pub mod Turns
pub mod Refinement
pub mod Simulation
pub mod Everywhere
pub mod Lost
pub mod Unparsed
pub mod Keys
pub mod Keyed
use zbc_go.Common.{
  ℕ, ◌≡◌, refl, sym, ap, ◌∙◌, ◌==◌, if◌then◌else◌, Bool-cases, inl, inr, ==_iff, Option, none, some,
  List, [], ◌∷◌, ◌++◌, All, All-append, true, false,
}
use zbc_go.Wire.{Bytes, Error, Outcome, ok, err, panic}
use zbc_go.Wire.Outcomes.{◌>>=◌}
use zbc_go.Protocol.{RequestResponseHeader}
use zbc_go.Message.{Headers, Message}
use zbc_go.Request.Values.{Data}
use zbc_go.Request.{as_subscribed_event}
use zbc_go.Reader.Buffer.{Connection}
use zbc_go.Reader.Headers.{Found, read_headers}
use zbc_go.Reader.Parse.{parse_message}
use zbc_go.Client.{Channel, nil_channel, response_channel, subscription_channel, Table, put, delete}
use zbc_go.Client.{Client, forget, Receiver, idle, sending, crashed, event_round, dispatch}
use zbc_go.Client.{
  round_found, receive, new_reader_size, new_client, request_id_of, open_subscription,
}
use zbc_go.Client.Messages.{parse_message-headers}
use zbc_go.Client.Steps.{Phase, unsent, waiting, returned, Call, call, System, initial, register}
use zbc_go.Client.Steps.{set_calls, finish, set_queue, set_receiver, receiver_turn}
use zbc_go.Client.Steps.{Step, responder, send_failed, sent, respond, time_out, receiver_round}
use zbc_go.Client.Steps.{event_queued, event_taken, event_handed, subscribed, Steps, stop, ◌then◌}

-- A channel under a request id: that of a call for this id, or nil.
abbrev Answers : ℕ → Channel → Type 0
Answers id nil_channel = Unit
Answers id (response_channel k n) = k ≡ id
Answers id (subscription_channel n capacity) = ⊥

abbrev NoAnswer : Channel → Type 0
NoAnswer nil_channel = Unit
NoAnswer (response_channel k n) = ⊥
NoAnswer (subscription_channel n capacity) = Unit

abbrev IsAnswerTo : {X : Type 0} → ℕ → Message (Data X) → Type 0
IsAnswerTo id m = request_id_of (some m) ≡ ok id

abbrev SendsOn : {X : Type 0} → Channel → Message (Data X) → Type 0
SendsOn nil_channel m = Unit
SendsOn (response_channel k n) m = IsAnswerTo k m
SendsOn (subscription_channel n capacity) m = Unit

abbrev Delivers : {X : Type 0} → Receiver (Data X) → Type 0
Delivers idle = Unit
Delivers (crashed p) = Unit
Delivers (sending ch m) = SendsOn ch m

abbrev GetsOwn : {X : Type 0} → ℕ → Phase (Data X) → Type 0
GetsOwn id unsent = Unit
GetsOwn id (waiting ch) = Answers id ch
GetsOwn id (returned (ok m)) = IsAnswerTo id m
GetsOwn id (returned (err e)) = Unit
GetsOwn id (returned (panic p)) = Unit

abbrev CallMatches : {X : Type 0} → Call (Data X) → Type 0
CallMatches c = GetsOwn c.request_id c.phase

record Matches {X : Type 0} (s : System X) : Type 0 where
  transactions_match : (id : ℕ) → Answers id (s.client.transactions id)
  subscriptions_match : (k : ℕ) → NoAnswer (s.client.subscriptions k)
  receiver_matches : Delivers s.receiver
  calls_match : All CallMatches s.calls

-- An entry is put where each has a property that may depend on its key.
put-Each :
    (P : ℕ → Channel → Type 0) (table : Table) (id : ℕ) (ch : Channel)
    → ((k : ℕ) → P k (table k))
    → P id ch
    → (k : ℕ) → P k (put id ch table k)
unfolding put
put-Each P table id ch old new k = elim (Bool-cases (k == id)) [
  | inl e ↦ rw (e, (==_iff k id).0 e) new
  | inr e ↦ rw e (old k)
]

sending-Delivers :
    {X : Type 0} (id : ℕ) (ch : Channel) (m : Message (Data X))
    → Answers id ch
    → IsAnswerTo id m
    → SendsOn ch m
sending-Delivers id nil_channel m own answer = tt
sending-Delivers id (response_channel k n) m own answer = rw own answer
sending-Delivers id (subscription_channel n capacity) m own answer = tt

event-Delivers : {X : Type 0} (ch : Channel) (m : Message (Data X)) → NoAnswer ch → SendsOn ch m
event-Delivers nil_channel m no_answer = tt
event-Delivers (response_channel k n) m no_answer = absurd no_answer
event-Delivers (subscription_channel n capacity) m no_answer = tt

All-split : {A : Type 0} (P : A → Type 0) (xs ys : List A) → All P (xs ++ ys) → All P xs × All P ys
All-split P [] ys h = (tt, h)
All-split P (x ∷ xs) ys h = let (front, back) = All-split P xs ys h.1 in ((h.0, front), back)

All-middle : {A : Type 0} (P : A → Type 0) (xs ys : List A) (a : A) → All P (xs ++ a ∷ ys) → P a
All-middle P xs ys a h = (All-split P xs (a ∷ ys) h).1.0

All-replace :
    {A : Type 0} (P : A → Type 0) (xs ys : List A) (a b : A)
    → All P (xs ++ a ∷ ys)
    → P b
    → All P (xs ++ b ∷ ys)
All-replace P xs ys a b h new =
    let (front, back) = All-split P xs (a ∷ ys) h in All-append P xs (b ∷ ys) front (new, back.1)
