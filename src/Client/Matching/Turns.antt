-- ===== src/Client/Matching/Turns.antt =====
-- A call of Responder gets no answer but that to its own request.
use mathlib.Core.Path.{subst}
use zbc_go.Common.{◌+◌, ℕ, ◌≡◌, refl, sym, Option, some, List, [], ◌∷◌, ◌++◌}
use zbc_go.Wire.{Bytes, ok}
use zbc_go.Message.{Message}
use zbc_go.Request.Values.{Data}
use zbc_go.Reader.Buffer.{Connection}
use zbc_go.Client.{response_channel}
use zbc_go.Client.{Client, idle, sending}
use zbc_go.Client.{new_client, request_id_of}
use zbc_go.Request.{TaskSubscription}
use zbc_go.Client.{subscribe}
use zbc_go.Client.Subscribed.{subscribe-eq}
use zbc_go.Client.Steps.{unsent, waiting, returned, Call, call, System, initial, register}
use zbc_go.Client.Steps.{set_calls, finish, set_queue, set_receiver, receiver_turn}
use zbc_go.Client.Steps.{Step, responder, send_failed, sent, respond, time_out, receiver_round}
use zbc_go.Client.Steps.{event_queued, event_taken, event_handed, subscribed, Steps, stop, ◌then◌}
use zbc_go.Client.Matching.{IsAnswerTo, CallMatches, Matches}
use zbc_go.Client.Matching.{put-Each, Answers, NoAnswer}
use zbc_go.Client.Matching.{All-middle, All-replace}
use zbc_go.Client.Matching.Rounds.{TablesMatch, forget-TablesMatch, receive-RoundMatches}

module _ {X : Type 0} (unmarshal : Bytes → Option (Data X)) where
  Matches-tables : (s : System X) → Matches s → TablesMatch s.client
  Matches-tables s h = record { own = h.transactions_match; events = h.subscriptions_match }

  finish-Matches :
      (s : System X) (id : ℕ) (before after : List (Call (Data X))) (c c' : Call (Data X))
      → Matches s
      → s.calls ≡ before ++ c ∷ after
      → CallMatches c'
      → Matches (finish id (before ++ c' ∷ after) s)
  unfolding finish
  finish-Matches s id before after c c' h at_call new =
      let tables = forget-TablesMatch id s.client (Matches-tables s h) in
      record {
        transactions_match = tables.own;
        subscriptions_match = tables.events;
        receiver_matches = h.receiver_matches;
        calls_match = All-replace CallMatches before after c c' (rw at_call at h.calls_match) new;
      }

  set_call-Matches :
      (s : System X) (before after : List (Call (Data X))) (c c' : Call (Data X))
      → Matches s
      → s.calls ≡ before ++ c ∷ after
      → CallMatches c'
      → Matches (set_calls (before ++ c' ∷ after) s)
  set_call-Matches s before after c c' h at_call new = record {
    transactions_match = h.transactions_match;
    subscriptions_match = h.subscriptions_match;
    receiver_matches = h.receiver_matches;
    calls_match = All-replace CallMatches before after c c' (rw at_call at h.calls_match) new;
  }

  set_idle-Matches : (s : System X) → Matches s → Matches (set_receiver idle s)
  set_idle-Matches s h = record {
    transactions_match = h.transactions_match;
    subscriptions_match = h.subscriptions_match;
    receiver_matches = tt;
    calls_match = h.calls_match;
  }

  set_queue-Matches :
      (s : System X) (n : ℕ) (queue : List (Message (Data X)))
      → Matches s
      → Matches (set_queue n queue s)
  set_queue-Matches s n queue h = record {
    transactions_match = h.transactions_match;
    subscriptions_match = h.subscriptions_match;
    receiver_matches = h.receiver_matches;
    calls_match = h.calls_match;
  }

  register-Matches :
      (s : System X) (m : Message (Data X)) (id : ℕ) → Matches s → Matches (register m id s)
  unfolding register
  register-Matches s m id h = record {
    transactions_match =
        put-Each Answers s.client.transactions id (response_channel id s.serial)
          h.transactions_match refl;
    subscriptions_match = h.subscriptions_match;
    receiver_matches = h.receiver_matches;
    calls_match = (tt, h.calls_match);
  }

  receiver_turn-Matches : (s : System X) → Matches s → Matches (receiver_turn unmarshal s)
  unfolding receiver_turn
  receiver_turn-Matches s h =
      let (delivers, tables) = receive-RoundMatches unmarshal s.client (Matches-tables s h) in
      record {
        transactions_match = tables.own;
        subscriptions_match = tables.events;
        receiver_matches = delivers;
        calls_match = h.calls_match;
      }

  pub subscribed-Matches :
      (s : System X) (ts : TaskSubscription) (response : Message (Data X)) (c : Client)
      → subscribe s.serial ts response s.client ≡ ok c
      → Matches s
      → Matches (record s { client = c; serial = s.serial + 1 })
  subscribed-Matches s ts response c opened h =
      let tables : TablesMatch c =
        subst TablesMatch (subscribe-eq s.serial ts response s.client c opened) (record {
          own = h.transactions_match;
          events = put-Each (λ _. NoAnswer) s.client.subscriptions _ _ h.subscriptions_match tt;
        }) in
      record {
        transactions_match = tables.own;
        subscriptions_match = tables.events;
        receiver_matches = h.receiver_matches;
        calls_match = h.calls_match;
      }

  -- A response that the receiver sends on the channel of a call is for the request of that call.
  pub respond-CallMatches :
      (s : System X) (response m : Message (Data X)) (id k n : ℕ)
      (before after : List (Call (Data X)))
      → Matches s
      → s.calls ≡ before ++ call m id (waiting (response_channel k n)) ∷ after
      → s.receiver ≡ sending (response_channel k n) response
      → IsAnswerTo id response
  respond-CallMatches s response m id k n before after h at_call at_send =
      let sent_answer : IsAnswerTo k response = rw at_send at h.receiver_matches in
      let same : k ≡ id =
        All-middle CallMatches before after (call m id (waiting (response_channel k n)))
          (rw at_call at h.calls_match) in
      rw (sym same) sent_answer

  pub Step-Matches : {s t : System X} → Step unmarshal s t → Matches s → Matches t
  Step-Matches (responder {s} m id known) h = register-Matches s m id h
  Step-Matches (send_failed {s} conn_write e m id before after at_call failed) h =
      set_call-Matches s before after (call m id unsent) _ h at_call tt
  Step-Matches (sent {s} conn_write m id before after at_call done) h =
      set_call-Matches s before after (call m id unsent) _ h at_call (h.transactions_match id)
  Step-Matches (respond {s} response m id k n before after at_call at_send) h = set_idle-Matches _ (
      finish-Matches s id before after (call m id (waiting (response_channel k n))) _ h at_call
        (respond-CallMatches s response m id k n before after h at_call at_send))
  Step-Matches (time_out {s} ch m id before after at_call) h =
      finish-Matches s id before after (call m id (waiting ch)) _ h at_call tt
  Step-Matches (receiver_round {s} at_idle) h = receiver_turn-Matches s h
  Step-Matches (event_queued {s} m n capacity at_send room) h =
      set_idle-Matches _ (set_queue-Matches s n (s.queues n ++ m ∷ []) h)
  Step-Matches (event_taken {s} m n rest at_queue) h = set_queue-Matches s n rest h
  Step-Matches (event_handed {s} m n at_send) h = set_idle-Matches s h
  Step-Matches (subscribed {s} ts response m id c before after at_call opened) h =
      subscribed-Matches s ts response c opened h

  pub Steps-Matches : {s t : System X} → Steps unmarshal s t → Matches s → Matches t
  Steps-Matches stop h = h
  Steps-Matches (step then steps) h = Steps-Matches steps (Step-Matches step h)

  pub initial-Matches : (conn : Connection) → Matches (initial {X = X} conn)
  unfolding initial new_client
  initial-Matches conn = record {
    transactions_match = λ id. tt;
    subscriptions_match = λ k. tt;
    receiver_matches = tt;
    calls_match = tt;
  }

  -- From a new client on, in whatever order the receiver, the calls of Responder and the users of
  -- subscriptions take their steps, a response that a call has returned carries the call's request id.
  pub response-request_id :
      (conn : Connection) (s : System X) (response m : Message (Data X)) (id : ℕ)
      (before after : List (Call (Data X)))
      → Steps unmarshal (initial conn) s
      → s.calls ≡ before ++ call m id (returned (ok response)) ∷ after
      → request_id_of (some response) ≡ ok id
  response-request_id conn s response m id before after steps at_call =
      All-middle CallMatches before after (call m id (returned (ok response)))
        (rw at_call at (Steps-Matches steps (initial-Matches conn)).calls_match)
