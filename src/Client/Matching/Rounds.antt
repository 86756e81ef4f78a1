-- ===== src/Client/Matching/Rounds.antt =====
-- A round of the receiver keeps the channels right.
use zbc_go.Common.{ℕ, ◌≡◌, refl, Option, none, some}
use zbc_go.Wire.{Bytes, Outcome, ok, err, panic}
use zbc_go.Protocol.{RequestResponseHeader}
use zbc_go.Message.{Headers, Message}
use zbc_go.Request.Values.{Data}
use zbc_go.Request.{as_subscribed_event}
use zbc_go.Reader.Headers.{Found}
use zbc_go.Reader.Parse.{parse_message}
use zbc_go.Client.{nil_channel, delete}
use zbc_go.Client.{Client, forget, Receiver, idle, sending, crashed, event_round, dispatch}
use zbc_go.Client.{round_found, receive, request_id_of}
use zbc_go.Client.Messages.{parse_message-headers}
use zbc_go.Client.Matching.{Answers, NoAnswer, IsAnswerTo, Delivers}
use zbc_go.Client.Matching.{put-Each, sending-Delivers, event-Delivers}

pub record TablesMatch (c : Client) : Type 0 where
  pub own : (id : ℕ) → Answers id (c.transactions id)
  pub events : (k : ℕ) → NoAnswer (c.subscriptions k)

pub forget-TablesMatch : (id : ℕ) (c : Client) → TablesMatch c → TablesMatch (forget id c)
unfolding forget delete
forget-TablesMatch id c tables = record {
  own = put-Each Answers c.transactions id nil_channel tables.own tt;
  events = tables.events;
}

-- What a round makes of the client: a receiver that delivers to the right caller, and its tables.
abbrev pub RoundMatches : {X : Type 0} → Receiver (Data X) × Client → Type 0
RoundMatches (r, c) = Delivers r × TablesMatch c

module _ {X : Type 0} where
  event_round-Delivers :
      (m : Message (Data X)) (c : Client) → TablesMatch c → Delivers (event_round m c)
  unfolding event_round
  event_round-Delivers m c tables =
      elim (as_subscribed_event m.sbe_message)
        as (λ x. Delivers {X = X} (elim x [
          | ok s ↦ sending (c.subscriptions s.subscriber_key) m
          | err _ ↦ idle
          | panic p ↦ crashed p
        ])) [
          | ok s ↦ event-Delivers _ m (tables.events s.subscriber_key)
          | err e ↦ tt
          | panic p ↦ tt
        ]

  dispatch-RoundMatches :
      (rr : Option RequestResponseHeader) (x : Outcome (Message (Data X))) (c : Client)
      → ((r : RequestResponseHeader) (m : Message (Data X))
          → rr ≡ some r
          → x ≡ ok m
          → IsAnswerTo r.request_id m)
      → TablesMatch c
      → RoundMatches (dispatch rr x c)
  unfolding dispatch
  dispatch-RoundMatches (some r) (ok m) c answer tables =
      (sending-Delivers r.request_id _ m (tables.own r.request_id) (answer r m refl refl), tables)
  dispatch-RoundMatches (some r) (err e) c answer tables =
      (tt, forget-TablesMatch r.request_id c tables)
  dispatch-RoundMatches (some r) (panic p) c answer tables = (tt, tables)
  dispatch-RoundMatches none (ok m) c answer tables = (event_round-Delivers m c tables, tables)
  dispatch-RoundMatches none (err e) c answer tables = (tt, tables)
  dispatch-RoundMatches none (panic p) c answer tables = (tt, tables)

module _ {X : Type 0} (unmarshal : Bytes → Option (Data X)) where
  parsed-IsAnswerTo :
      (h : Headers) (bs : Bytes) (r : RequestResponseHeader) (m : Message (Data X))
      → h.request_response_header ≡ some r
      → parse_message unmarshal (some h) bs ≡ ok m
      → IsAnswerTo r.request_id m
  unfolding request_id_of
  parsed-IsAnswerTo h bs r m header parsed =
      rw (parse_message-headers unmarshal h bs m parsed, header)

  round_found-RoundMatches :
      (found : Outcome Found) (c : Client)
      → TablesMatch c
      → RoundMatches (round_found unmarshal found c)
  unfolding round_found
  round_found-RoundMatches (ok none) c tables = (tt, tables)
  round_found-RoundMatches (ok (some (h, tail))) c tables =
      dispatch-RoundMatches _ _ c (λ r m header parsed. parsed-IsAnswerTo h tail r m header parsed)
        tables
  round_found-RoundMatches (err e) c tables = (tt, tables)
  round_found-RoundMatches (panic p) c tables = (tt, tables)

  pub receive-RoundMatches : (c : Client) → TablesMatch c → RoundMatches (receive unmarshal c)
  unfolding receive
  receive-RoundMatches c tables =
      round_found-RoundMatches _ _ (record { own = tables.own; events = tables.events })
