-- ===== src/Client/Matching/Refinement.antt =====
-- A promise that shows a state of the client, and what the steps of the client are for it.
use mathlib.Core.List.{map, map-append}
use mathlib.Core.Path.{subst}
use zbc_go.Common.{
  ℕ, ◌+◌, ◌≤◌, ◌≡◌, refl, sym, ap, arith, ◌∙◌, ◌==◌, if◌then◌else◌, ne→==, eq→==, Option, none,
  some, List, [], ◌∷◌, ◌++◌,
}
use zbc_go.Wire.{Bytes, Outcome, ok, err, timeout}
use zbc_go.Message.{Message}
use zbc_go.Request.{TaskSubscription}
use zbc_go.Request.Values.{Data}
use zbc_go.Client.{subscription_channel, forget, Client}
use zbc_go.Client.{idle, subscribe}
use zbc_go.Client.Promise.{
  Asked, asked, Subscription, Promise, nothing_asked, Action, asks, returns, opens, pushes, pops,
  hands, with_channel, Allowed, ask, answer, fail, open_channel, push, pop, hand, Kept, stays, goes,
}
use zbc_go.Client.Promise as Promised
use zbc_go.Client.Subscribed.{subscribe-eq, subscription_of}
use zbc_go.Client.Steps.{Phase, unsent, waiting, returned, Call, System}
use zbc_go.Client.Steps.{set_calls, set_receiver, set_queue, finish, receiver_turn}
use zbc_go.Client.Steps.{Step, responder, send_failed, sent, respond, time_out, receiver_round}
use zbc_go.Client.Steps.{event_queued, event_taken, event_handed, subscribed, Steps, stop, ◌then◌}
use zbc_go.Client.Matching.{Matches, put-Each}
use zbc_go.Client.Matching.Keys.{
  Stored, Pushes, AllStored, Stored-next, receiver-next, receive-RoundPushes,
}

-- What a call has returned.
abbrev result_of : {D : Type 0} → Phase D → Option (Outcome (Message D))
result_of unsent = none
result_of (waiting ch) = none
result_of (returned r) = some r

abbrev pub view_call : {D : Type 0} → Call D → Asked D
view_call c = asked c.message c.request_id (result_of c.phase)

-- The promise `p` shows the state `s`: its calls, its queues, and the subscriptions of the channels in
-- its table and of the one on which its receiver sends.
pub record Shows {X : Type 0} (p : Promise X) (s : System X) : Type 0 where
  pub calls_shown : p.calls ≡ map view_call s.calls
  pub queues_shown : p.queues ≡ s.queues
  pub stored : AllStored p.channels s.client
  pub sends : Pushes p.channels s.receiver
  pub unused : (n : ℕ) → s.serial ≤ n → p.channels n ≡ none

module _ {X : Type 0} (unmarshal : Bytes → Option (Data X)) where
  -- What a step is for the users of the client, and for the receiver.
  unfoldable pub action_of : {s t : System X} → Step unmarshal s t → List (Action X)
  unfolding subscription_of
  action_of (responder m id known) = asks id m ∷ []
  action_of (send_failed conn_write e m id before after at_call failed) = returns id m (err e) ∷ []
  action_of (sent conn_write m id before after at_call done) = []
  action_of (respond response m id k n before after at_call at_send) =
      returns id m (ok response) ∷ []
  action_of (time_out ch m id before after at_call) = returns id m (err timeout) ∷ []
  action_of (receiver_round at_idle) = []
  action_of (event_queued m n capacity at_send room) = pushes n m ∷ []
  action_of (event_taken m n rest at_queue) = pops n m ∷ []
  action_of (event_handed m n at_send) = hands n m ∷ []
  action_of (subscribed {s} ts response m id c before after at_call opened) =
      opens s.serial (subscription_of ts response) ∷ []

  unfoldable pub trace : {s t : System X} → Steps unmarshal s t → List (Action X)
  unfolding action_of
  trace stop = []
  trace (step then steps) = action_of step ++ trace steps

  -- Actions that the promise allows, to a promise that shows the state `t`.
  abbrev pub KeptTo : List (Action X) → Promise X → System X → Type 0
  KeptTo actions p t = (q : Promise X) × Kept actions p q × Shows q t

  pub viewed :
      (p : Promise X) (s : System X) (before after : List (Call (Data X))) (c : Call (Data X))
      → Shows p s
      → s.calls ≡ before ++ c ∷ after
      → p.calls ≡ map view_call before ++ view_call c ∷ map view_call after
  viewed p s before after c h at_call =
      h.calls_shown ∙ ap (map view_call) at_call ∙ map-append view_call before (c ∷ after)

  -- A call that returns.
  pub returned-Shows :
      (p : Promise X) (s : System X) (before after : List (Call (Data X))) (c : Call (Data X))
      → Shows p s
      → Shows
          (Promised.set_calls (map view_call before ++ view_call c ∷ map view_call after) p)
          (set_calls (before ++ c ∷ after) s)
  returned-Shows p s before after c h = record {
    calls_shown = sym (map-append view_call before (c ∷ after));
    queues_shown = h.queues_shown;
    stored = h.stored;
    sends = h.sends;
    unused = h.unused;
  }

  pub finish-Shows :
      (p : Promise X) (s : System X) (id : ℕ) (calls : List (Call (Data X)))
      → Shows p (set_calls calls s)
      → Shows p (finish id calls s)
  unfolding finish forget
  finish-Shows p s id calls h = record {
    calls_shown = h.calls_shown;
    queues_shown = h.queues_shown;
    stored = h.stored;
    sends = h.sends;
    unused = h.unused;
  }

  pub idle-Shows : (p : Promise X) (s : System X) → Shows p s → Shows p (set_receiver idle s)
  idle-Shows p s h = record {
    calls_shown = h.calls_shown;
    queues_shown = h.queues_shown;
    stored = h.stored;
    sends = tt;
    unused = h.unused;
  }

  pub queue-Shows :
      (p : Promise X) (s : System X) (n : ℕ) (queue queue' : List (Message (Data X)))
      → queue ≡ queue'
      → Shows p s
      → Shows (Promised.set_queue n queue p) (set_queue n queue' s)
  queue-Shows p s n queue queue' same h = record {
    calls_shown = h.calls_shown;
    queues_shown =
        ap (λ queues. λ k. if k == n then queue else queues k) h.queues_shown
        ∙ ap (λ q. λ k. if k == n then q else s.queues k) same;
    stored = h.stored;
    sends = h.sends;
    unused = h.unused;
  }

  pub receiver_turn-Shows :
      (p : Promise X) (s : System X) → Matches s → Shows p s → Shows p (receiver_turn unmarshal s)
  unfolding receiver_turn
  receiver_turn-Shows p s matches h =
      let (sends, stored) =
        receive-RoundPushes p.channels unmarshal s.client matches.transactions_match h.stored in
      record {
        calls_shown = h.calls_shown;
        queues_shown = h.queues_shown;
        stored = stored;
        sends = sends;
        unused = h.unused;
      }

  -- TaskConsumer opens a channel that was not open.
  pub subscribed-Shows :
      (p : Promise X) (s : System X) (ts : TaskSubscription) (response : Message (Data X))
      (c : Client)
      → subscribe s.serial ts response s.client ≡ ok c
      → Shows p s
      → Shows
          (record p { channels = with_channel s.serial (subscription_of ts response) p.channels })
          (record s { client = c; serial = s.serial + 1 })
  subscribed-Shows p s ts response c opened h =
      let sub = subscription_of ts response in
      let fresh = h.unused s.serial (omega arith) in
      let channels = with_channel s.serial sub p.channels in
      record {
        calls_shown = h.calls_shown;
        queues_shown = h.queues_shown;
        stored = subst (AllStored channels) (subscribe-eq s.serial ts response s.client c opened) (
            put-Each (Stored channels) s.client.subscriptions sub.key
              (subscription_channel s.serial sub.credits)
              (λ k.
                Stored-next p.channels s.serial sub k (s.client.subscriptions k) fresh (h.stored k))
              (rw (eq→== s.serial s.serial refl) refl));
        sends = receiver-next p.channels s.serial sub s.receiver fresh h.sends;
        unused = λ n later.
            rw (ne→== n s.serial (λ same. ground (arith, later, same)))
              (h.unused n (omega (arith, later)));
      }
