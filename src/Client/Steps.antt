-- ===== src/Client/Steps.antt =====
-- zbc/client.go: the goroutines. The receiver, any number of calls of Responder, and the users of
-- subscriptions take turns; a step is what one of them does up to its next wait. Access to the
-- tables, which the code does not guard, is one step here.
use zbc_go.Common.{ℕ, ◌+◌, ◌<◌, ◌≡◌, ◌==◌, if◌then◌else◌, Option, some, List, [], ◌∷◌, ◌++◌, length}
use zbc_go.Wire.{Bytes, Error, Outcome, ok, err, timeout}
use zbc_go.Message.{Message}
use zbc_go.Request.{TaskSubscription}
use zbc_go.Request.Values.{Data}
use zbc_go.Reader.Buffer.{Connection}
use zbc_go.Client.{Channel, response_channel, subscription_channel, Client, Receiver, idle, sending}
use zbc_go.Client.{new_client, put, forget, receive, request_id_of, sender, subscribe}

-- Where a call of Responder stands.
pub data Phase (D : Type 0) : Type 0 where
  unsent : Phase D
  waiting : Channel → Phase D
  returned : Outcome (Message D) → Phase D

pub record Call (D : Type 0) : Type 0 where
  pub message : Message D
  pub request_id : ℕ
  pub phase : Phase D

-- `queues` holds what is buffered in the channels of subscriptions, by their serial numbers, and
-- `serial` is the next one.
pub record System (X : Type 0) : Type 0 where
  pub client : Client
  pub receiver : Receiver (Data X)
  pub calls : List (Call (Data X))
  pub queues : ℕ → List (Message (Data X))
  pub serial : ℕ

abbrev pub call : {D : Type 0} → Message D → ℕ → Phase D → Call D
call m id phase = record { message = m; request_id = id; phase = phase }

-- NewClient and Connect.
unfoldable pub initial : {X : Type 0} → Connection → System X
unfolding new_client
initial conn = record {
  client = new_client conn;
  receiver = idle;
  calls = [];
  queues = λ _. [];
  serial = 0;
}

module _ {X : Type 0} where
  -- Responder up to its send: a new channel, and its entry.
  unfoldable pub register : Message (Data X) → ℕ → System X → System X
  unfolding put
  register m id s = record s {
    client = record s.client {
      transactions = put id (response_channel id s.serial) s.client.transactions;
    };
    calls = call m id unsent ∷ s.calls;
    serial = s.serial + 1;
  }

  abbrev pub set_calls : List (Call (Data X)) → System X → System X
  set_calls calls s = record s { calls = calls }

  -- The end of Responder, which deletes its entry.
  unfoldable pub finish : ℕ → List (Call (Data X)) → System X → System X
  unfolding forget
  finish id calls s = record s { client = forget id s.client; calls = calls }

  abbrev pub set_queue : ℕ → List (Message (Data X)) → System X → System X
  set_queue n queue s = record s { queues = λ k. if k == n then queue else s.queues k }

  abbrev pub set_receiver : Receiver (Data X) → System X → System X
  set_receiver r s = record s { receiver = r }

module _ {X : Type 0} (unmarshal : Bytes → Option (Data X)) where
  unfoldable pub receiver_turn : System X → System X
  unfolding receive
  receiver_turn s = let (r, c) = receive unmarshal s.client in record s { client = c; receiver = r }

  pub data Step : System X → System X → Type 0 where
    responder :
        {s : System X} (m : Message (Data X)) (id : ℕ)
        → request_id_of (some m) ≡ ok id
        → Step s (register m id s)
    send_failed :
        {s : System X} (conn_write : Bytes → ℕ × Option Error) (e : Error) (m : Message (Data X))
        (id : ℕ) (before after : List (Call (Data X)))
        → s.calls ≡ before ++ call m id unsent ∷ after
        → sender conn_write m ≡ err e
        → Step s (set_calls (before ++ call m id (returned (err e)) ∷ after) s)
    -- The select reads the table again.
    sent :
        {s : System X} (conn_write : Bytes → ℕ × Option Error) (m : Message (Data X)) (id : ℕ)
        (before after : List (Call (Data X)))
        → s.calls ≡ before ++ call m id unsent ∷ after
        → sender conn_write m ≡ ok tt
        → Step s (set_calls (before ++ call m id (waiting (s.client.transactions id)) ∷ after) s)
    -- An unbuffered channel: the receiver's send and the call's receive meet.
    respond :
        {s : System X} (response m : Message (Data X)) (id k n : ℕ)
        (before after : List (Call (Data X)))
        → s.calls ≡ before ++ call m id (waiting (response_channel k n)) ∷ after
        → s.receiver ≡ sending (response_channel k n) response
        → Step s
            (set_receiver idle (finish id (before ++ call m id (returned (ok response)) ∷ after) s))
    time_out :
        {s : System X} (ch : Channel) (m : Message (Data X)) (id : ℕ)
        (before after : List (Call (Data X)))
        → s.calls ≡ before ++ call m id (waiting ch) ∷ after
        → Step s (finish id (before ++ call m id (returned (err timeout)) ∷ after) s)
    receiver_round : {s : System X} → s.receiver ≡ idle → Step s (receiver_turn s)
    event_queued :
        {s : System X} (m : Message (Data X)) (n capacity : ℕ)
        → s.receiver ≡ sending (subscription_channel n capacity) m
        → length (s.queues n) < capacity
        → Step s (set_receiver idle (set_queue n (s.queues n ++ m ∷ []) s))
    event_taken :
        {s : System X} (m : Message (Data X)) (n : ℕ) (rest : List (Message (Data X)))
        → s.queues n ≡ m ∷ rest
        → Step s (set_queue n rest s)
    -- A user takes an event of a channel without a buffer.
    event_handed :
        {s : System X} (m : Message (Data X)) (n : ℕ)
        → s.receiver ≡ sending (subscription_channel n 0) m
        → Step s (set_receiver idle s)
    -- TaskConsumer, after its call of Responder.
    subscribed :
        {s : System X} (ts : TaskSubscription) (response m : Message (Data X)) (id : ℕ) (c : Client)
        (before after : List (Call (Data X)))
        → s.calls ≡ before ++ call m id (returned (ok response)) ∷ after
        → subscribe s.serial ts response s.client ≡ ok c
        → Step s (record s { client = c; serial = s.serial + 1 })

  infixr 5 ◌then◌
  pub data Steps : System X → System X → Type 0 where
    stop : {s : System X} → Steps s s
    ◌then◌ : {s t u : System X} → Step s t → Steps t u → Steps s u
