-- ===== src/Client/Matching/Everywhere.antt =====
-- A property of the channels on which the client sends or will send, from step to step.
use mathlib.Core.Path.{subst}
use zbc_go.Common.{ℕ, ◌+◌, Option}
use zbc_go.Wire.{Bytes}
use zbc_go.Request.Values.{Data}
use zbc_go.Client.{Channel, nil_channel, response_channel, subscription_channel}
use zbc_go.Client.Subscribed.{subscription_of, subscribe-eq}
use zbc_go.Client.Steps.{System, register, finish}
use zbc_go.Client.Subscribed.{subscription_of, subscribe-eq}
use zbc_go.Client.Steps.{receiver_turn}
use zbc_go.Client.Subscribed.{subscription_of, subscribe-eq}
use zbc_go.Client.Steps.{Step, responder, send_failed, sent, respond, time_out, receiver_round}
use zbc_go.Client.Subscribed.{subscription_of, subscribe-eq}
use zbc_go.Client.Steps.{event_queued, event_taken, event_handed, subscribed}
use zbc_go.Client.Channels.{SendsOn, TablesHave, put-All, forget-TablesHave, receive-RoundHas}
use zbc_go.Client.Channels.{TablesHave-map, SendsOn-map}

-- A property of channels that may depend on the next serial number, of all channels that the client
-- sends on or will send on.
pub record Everywhere {X : Type 0} (P : ℕ → Channel → Type 0) (s : System X) : Type 0 where
  pub tables : TablesHave (P s.serial) s.client
  pub receiver_has : SendsOn (P s.serial) s.receiver

module _ {X : Type 0} (unmarshal : Bytes → Option (Data X)) (P : ℕ → Channel → Type 0)
    (nil : (n : ℕ) → P n nil_channel) (later : (n : ℕ) (ch : Channel) → P n ch → P (n + 1) ch)
    (subscription : (n m capacity : ℕ) → P n (subscription_channel m capacity)) where
  pub Step-Everywhere :
      {s t : System X}
      → ((id : ℕ) → P (s.serial + 1) (response_channel id s.serial))
      → Step unmarshal s t
      → Everywhere P s
      → Everywhere P t
  unfolding register finish receiver_turn
  Step-Everywhere fresh (responder {s} m id known) h =
      let tables = TablesHave-map s.client (later s.serial) h.tables in
      record {
        tables = record {
          own = put-All (P (s.serial + 1)) s.client.transactions id _ (fresh id) tables.own;
          events = tables.events;
        };
        receiver_has = SendsOn-map s.receiver (later s.serial) h.receiver_has;
      }
  Step-Everywhere fresh (send_failed conn_write e m id before after at_call failed) h = record {
    tables = h.tables;
    receiver_has = h.receiver_has;
  }
  Step-Everywhere fresh (sent conn_write m id before after at_call done) h = record {
    tables = h.tables;
    receiver_has = h.receiver_has;
  }
  Step-Everywhere fresh (respond {s} response m id k n before after at_call at_send) h = record {
    tables = forget-TablesHave (P s.serial) (nil s.serial) id s.client h.tables;
    receiver_has = tt;
  }
  Step-Everywhere fresh (time_out {s} ch m id before after at_call) h = record {
    tables = forget-TablesHave (P s.serial) (nil s.serial) id s.client h.tables;
    receiver_has = h.receiver_has;
  }
  Step-Everywhere fresh (receiver_round {s} at_idle) h =
      let (sends, tables) =
        receive-RoundHas (P s.serial) (nil s.serial) unmarshal s.client h.tables in
      record { tables = tables; receiver_has = sends }
  Step-Everywhere fresh (event_queued m n capacity at_send room) h = record {
    tables = h.tables;
    receiver_has = tt;
  }
  Step-Everywhere fresh (event_taken m n rest at_queue) h = record {
    tables = h.tables;
    receiver_has = h.receiver_has;
  }
  Step-Everywhere fresh (event_handed m n at_send) h = record {
    tables = h.tables;
    receiver_has = tt;
  }
  Step-Everywhere fresh (subscribed {s} ts response m id c before after at_call opened) h =
      let sub = subscription_of ts response in
      let tables = TablesHave-map s.client (later s.serial) h.tables in
      record {
        tables =
            subst (TablesHave (P (s.serial + 1)))
              (subscribe-eq s.serial ts response s.client c opened)
              (record {
                own = tables.own;
                events =
                    put-All (P (s.serial + 1)) s.client.subscriptions sub.key _
                      (subscription (s.serial + 1) s.serial sub.credits) tables.events;
              });
        receiver_has = SendsOn-map s.receiver (later s.serial) h.receiver_has;
      }
