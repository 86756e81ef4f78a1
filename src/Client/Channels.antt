-- ===== src/Client/Channels.antt =====
-- Any property of channels that the tables of zbc/client.go have is one of the channel on which the
-- receiver sends.
use zbc_go.Common.{ℕ, ◌==◌, Bool-cases, inl, inr, Option, none, some}
use zbc_go.Wire.{Bytes, Outcome, ok, err, panic}
use zbc_go.Protocol.{RequestResponseHeader}
use zbc_go.Message.{Message}
use zbc_go.Request.Values.{Data}
use zbc_go.Request.{as_subscribed_event}
use zbc_go.Reader.Headers.{Found}
use zbc_go.Client.{Channel, nil_channel, Table, put, delete}
use zbc_go.Client.{Client, forget, Receiver, idle, sending, crashed, event_round, dispatch}
use zbc_go.Client.{round_found, receive}

module _ (P : Channel → Type 0) where
  abbrev pub SendsOn : {X : Type 0} → Receiver (Data X) → Type 0
  SendsOn idle = Unit
  SendsOn (crashed p) = Unit
  SendsOn (sending ch m) = P ch

  pub record TablesHave (c : Client) : Type 0 where
    pub own : (id : ℕ) → P (c.transactions id)
    pub events : (k : ℕ) → P (c.subscriptions k)

  pub put-All :
      (table : Table) (id : ℕ) (ch : Channel)
      → P ch
      → ((k : ℕ) → P (table k))
      → (k : ℕ) → P (put id ch table k)
  unfolding put
  put-All table id ch new old k = elim (Bool-cases (k == id)) [
    | inl e ↦ rw e new
    | inr e ↦ rw e (old k)
  ]

  abbrev RoundHas : {X : Type 0} → Receiver (Data X) × Client → Type 0
  RoundHas (r, c) = SendsOn r × TablesHave c

  pub forget-TablesHave :
      P nil_channel → (id : ℕ) (c : Client) → TablesHave c → TablesHave (forget id c)
  unfolding forget delete
  forget-TablesHave nil id c tables = record {
    own = put-All c.transactions id nil_channel nil tables.own;
    events = tables.events;
  }

  module _ {X : Type 0} (nil : P nil_channel) where
    event_round-SendsOn :
        (m : Message (Data X)) (c : Client) → TablesHave c → SendsOn (event_round m c)
    unfolding event_round
    event_round-SendsOn m c tables =
        elim (as_subscribed_event m.sbe_message)
          as (λ x. SendsOn {X = X} (elim x [
            | ok s ↦ sending (c.subscriptions s.subscriber_key) m
            | err _ ↦ idle
            | panic p ↦ crashed p
          ])) [ ok s ↦ tables.events s.subscriber_key | err e ↦ tt | panic p ↦ tt ]

    dispatch-RoundHas :
        (rr : Option RequestResponseHeader) (x : Outcome (Message (Data X))) (c : Client)
        → TablesHave c
        → RoundHas (dispatch rr x c)
    unfolding dispatch
    dispatch-RoundHas (some r) (ok m) c tables = (tables.own r.request_id, tables)
    dispatch-RoundHas (some r) (err e) c tables = (tt, forget-TablesHave nil r.request_id c tables)
    dispatch-RoundHas (some r) (panic p) c tables = (tt, tables)
    dispatch-RoundHas none (ok m) c tables = (event_round-SendsOn m c tables, tables)
    dispatch-RoundHas none (err e) c tables = (tt, tables)
    dispatch-RoundHas none (panic p) c tables = (tt, tables)

    round_found-RoundHas :
        (unmarshal : Bytes → Option (Data X)) (found : Outcome Found) (c : Client)
        → TablesHave c
        → RoundHas (round_found unmarshal found c)
    unfolding round_found
    round_found-RoundHas unmarshal (ok none) c tables = (tt, tables)
    round_found-RoundHas unmarshal (ok (some (h, tail))) c tables = dispatch-RoundHas _ _ c tables
    round_found-RoundHas unmarshal (err e) c tables = (tt, tables)
    round_found-RoundHas unmarshal (panic p) c tables = (tt, tables)

    -- A round of the receiver keeps the property.
    pub receive-RoundHas :
        (unmarshal : Bytes → Option (Data X)) (c : Client)
        → TablesHave c
        → RoundHas (receive unmarshal c)
    unfolding receive
    receive-RoundHas unmarshal c tables =
        round_found-RoundHas unmarshal _ _ (record { own = tables.own; events = tables.events })

pub TablesHave-map :
    {P Q : Channel → Type 0} (c : Client)
    → ((ch : Channel) → P ch → Q ch)
    → TablesHave P c
    → TablesHave Q c
TablesHave-map c f tables = record {
  own = λ id. f (c.transactions id) (tables.own id);
  events = λ k. f (c.subscriptions k) (tables.events k);
}

pub SendsOn-map :
    {P Q : Channel → Type 0} {X : Type 0} (r : Receiver (Data X))
    → ((ch : Channel) → P ch → Q ch)
    → SendsOn P r
    → SendsOn Q r
SendsOn-map idle f h = tt
SendsOn-map (crashed p) f h = tt
SendsOn-map (sending ch m) f h = f ch h
