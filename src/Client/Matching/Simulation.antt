-- ===== src/Client/Matching/Simulation.antt =====
-- The client keeps its promise: its steps are actions that the promise allows.
use mathlib.Core.List.{map, map-append}
use zbc_go.Common.{
  ℕ, ◌≡◌, refl, sym, ap, arith, ◌∙◌, if◌then◌else◌, Option, none, List, [], ◌∷◌, ◌++◌, length,
}
use zbc_go.Wire.{Bytes, timeout}
use zbc_go.Message.{Message}
use zbc_go.Request.Values.{Data}
use zbc_go.Reader.Buffer.{Connection}
use zbc_go.Client.{response_channel, subscription_channel, new_client}
use zbc_go.Client.Promise.{
  Asked, asked, Subscription, Promise, nothing_asked, Action, asks, returns, opens, pushes, pops,
  hands, with_channel, Allowed, ask, answer, fail, open_channel, push, pop, hand, Kept, stays, goes,
}
use zbc_go.Client.Promise as Promised
use zbc_go.Client.Steps.{unsent, waiting, Call, call, System, initial, register}
use zbc_go.Client.Steps.{set_calls}
use zbc_go.Client.Steps.{Step, responder, send_failed, sent, respond, time_out, receiver_round}
use zbc_go.Client.Steps.{event_queued, event_taken, event_handed, subscribed, Steps, stop, ◌then◌}
use zbc_go.Client.Matching.{Matches}
use zbc_go.Client.Matching.Turns.{respond-CallMatches, Step-Matches, initial-Matches}
use zbc_go.Client.Matching.Keys.{Carries}
use zbc_go.Client.Matching.Refinement.{
  view_call, Shows, action_of, trace, KeptTo, viewed, returned-Shows, finish-Shows, idle-Shows,
  queue-Shows, receiver_turn-Shows, subscribed-Shows,
}

module _ {X : Type 0} (unmarshal : Bytes → Option (Data X)) where
  register-Shows :
      (p : Promise X) (s : System X) (m : Message (Data X)) (id : ℕ)
      → Shows p s
      → Shows (Promised.set_calls (asked m id none ∷ p.calls) p) (register m id s)
  unfolding register
  register-Shows p s m id h = record {
    calls_shown = ap (λ calls. asked m id none ∷ calls) h.calls_shown;
    queues_shown = h.queues_shown;
    stored = h.stored;
    sends = h.sends;
    unused = λ n later. h.unused n (omega (arith, later));
  }

  -- A call is sent, and has no result yet.
  sent-Shows :
      (p : Promise X) (s : System X) (before after : List (Call (Data X))) (c c' : Call (Data X))
      → Shows p s
      → s.calls ≡ before ++ c ∷ after
      → view_call c ≡ view_call c'
      → Shows p (set_calls (before ++ c' ∷ after) s)
  sent-Shows p s before after c c' h at_call same = record {
    calls_shown =
        viewed unmarshal p s before after c h at_call
        ∙ ap (λ x. map view_call before ++ x ∷ map view_call after) same
        ∙ sym (map-append view_call before (c' ∷ after));
    queues_shown = h.queues_shown;
    stored = h.stored;
    sends = h.sends;
    unused = h.unused;
  }

  one_action :
      {a : Action X} {p q : Promise X} {t : System X}
      → Allowed a p q
      → Shows q t
      → KeptTo unmarshal (a ∷ []) p t
  one_action {q = q} allowed shown = (q, goes allowed stays, shown)

  Step-Kept :
      {s t : System X} (step : Step unmarshal s t) (p : Promise X)
      → Matches s
      → Shows p s
      → KeptTo unmarshal (action_of unmarshal step) p t
  unfolding action_of
  Step-Kept (responder {s} m id known) p matches h =
      one_action (ask m id known) (register-Shows p s m id h)
  Step-Kept (send_failed {s} conn_write e m id before after at_call failed) p matches h =
      one_action
        (fail e m id (map view_call before) (map view_call after)
          (viewed unmarshal p s before after (call m id unsent) h at_call))
        (returned-Shows unmarshal p s before after _ h)
  Step-Kept (sent {s} conn_write m id before after at_call done) p matches h =
      (p, stays, sent-Shows p s before after (call m id unsent) _ h at_call refl)
  Step-Kept (respond {s} response m id k n before after at_call at_send) p matches h =
      let c = call m id (waiting (response_channel k n)) in
      one_action
        (answer response m id (map view_call before) (map view_call after)
          (viewed unmarshal p s before after c h at_call)
          (respond-CallMatches unmarshal s response m id k n before after matches at_call at_send))
        (idle-Shows unmarshal _ _
          (finish-Shows unmarshal _ s id _ (returned-Shows unmarshal p s before after _ h)))
  Step-Kept (time_out {s} ch m id before after at_call) p matches h =
      one_action
        (fail timeout m id (map view_call before) (map view_call after)
          (viewed unmarshal p s before after (call m id (waiting ch)) h at_call))
        (finish-Shows unmarshal _ s id _ (returned-Shows unmarshal p s before after _ h))
  Step-Kept (receiver_round {s} at_idle) p matches h =
      (p, stays, receiver_turn-Shows unmarshal p s matches h)
  Step-Kept (event_queued {s} m n capacity at_send room) p matches h =
      let (k, at_channel, event) : Carries p.channels (subscription_channel n capacity) m =
        rw at_send at h.sends in
      let same = ap (λ queues. queues n) h.queues_shown in
      one_action (push m n _ at_channel event (omega (arith, room, ap length same))) (
        idle-Shows unmarshal _ _
          (queue-Shows unmarshal p s n _ _ (ap (λ queue. queue ++ m ∷ []) same) h))
  Step-Kept (event_taken {s} m n rest at_queue) p matches h =
      one_action (pop m n rest (ap (λ queues. queues n) h.queues_shown ∙ at_queue))
        (queue-Shows unmarshal p s n rest rest refl h)
  Step-Kept (event_handed {s} m n at_send) p matches h =
      let (k, at_channel, event) : Carries p.channels (subscription_channel n 0) m =
        rw at_send at h.sends in
      one_action (hand m n _ at_channel event refl) (idle-Shows unmarshal p s h)
  Step-Kept (subscribed {s} ts response m id c before after at_call opened) p matches h =
      one_action (open_channel s.serial _ (h.unused s.serial (omega arith)))
        (subscribed-Shows unmarshal p s ts response c opened h)

  Kept-trans :
      {xs ys : List (Action X)} {p q r : Promise X}
      → Kept xs p q
      → Kept ys q r
      → Kept (xs ++ ys) p r
  Kept-trans stays rest = rest
  Kept-trans (goes allowed kept) rest = goes allowed (Kept-trans kept rest)

  pub Steps-Kept :
      {s t : System X} (steps : Steps unmarshal s t) (p : Promise X)
      → Matches s
      → Shows p s
      → KeptTo unmarshal (trace unmarshal steps) p t
  unfolding trace
  Steps-Kept stop p matches h = (p, stays, h)
  Steps-Kept (step then steps) p matches h =
      let (q, kept, shown) = Step-Kept step p matches h in
      let (r, later, shown') = Steps-Kept steps q (Step-Matches unmarshal step matches) shown in
      (r, Kept-trans kept later, shown')

  pub initial-Shows : (conn : Connection) → Shows nothing_asked (initial {X = X} conn)
  unfolding initial new_client
  initial-Shows conn = record {
    calls_shown = refl;
    queues_shown = refl;
    stored = λ k. tt;
    sends = tt;
    unused = λ n later. refl;
  }

  -- Whatever the goroutines do from a new client on, and in whatever order, what they do, action by
  -- action, is what the promise allows from the start: each call of Responder returns once, an error or
  -- a response with the request id of the call; TaskConsumer opens a channel that was not open; and
  -- the receiver puts an event only into an open channel, with the subscriber key and within the
  -- credits of the subscription, from where the user takes it in its turn, or, where the credits are
  -- 0, hands it to the user. The promise at the end shows
  -- the state of the client.
  pub client-Kept :
      (conn : Connection) (s : System X) (steps : Steps unmarshal (initial conn) s)
      → KeptTo unmarshal (trace unmarshal steps) nothing_asked s
  client-Kept conn s steps =
      Steps-Kept steps nothing_asked (initial-Matches unmarshal conn) (initial-Shows conn)
