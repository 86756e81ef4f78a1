-- ===== src/Client/Matching/Unparsed.antt =====
-- A call whose response the receiver cannot parse.
use mathlib.Core.Path.{subst}
use zbc_go.Common.{
  true, false, eq→==, ◌∙◌, ℕ, ◌≡◌, ◌≢◌, refl, sym, ap, ◌==◌, Bool-cases, inl, inr, Option, some,
  List, ◌∷◌, ◌++◌, length,
}
use zbc_go.Wire.{Bytes, Error, ok, err}
use zbc_go.Protocol.{RequestResponseHeader}
use zbc_go.Message.{Headers, Message}
use zbc_go.Request.Values.{Data}
use zbc_go.Reader.Buffer.{Connection}
use zbc_go.Reader.Headers.{read_headers}
use zbc_go.Reader.Parse.{parse_message}
use zbc_go.Client.{
  Channel, Table, nil_channel, response_channel, subscription_channel, Client, idle,
}
use zbc_go.Client.{put, delete, forget, receive, round_found, dispatch, new_reader_size}
use zbc_go.Client.Late.{delete-eq}
use zbc_go.Client.Steps.{waiting, Call, call, System, initial}
use zbc_go.Client.Steps.{receiver_turn}
use zbc_go.Client.Steps.{Steps}
use zbc_go.Client.Places.{SomeAt}
use zbc_go.Client.Channels.{SendsOn, TablesHave}
use zbc_go.Client.Matching.{Answers, NoAnswer}
use zbc_go.Client.Matching.Turns.{Steps-Matches, initial-Matches}
use zbc_go.Client.Matching.Lost.{
  Apart, nil-Apart, subscription-Apart, Unanswered, Steps-Made, initial-Made, IsLost, Steps-IsLost,
}

module _ {X : Type 0} (unmarshal : Bytes → Option (Data X)) where
  elsewhere : true ≢ false
  elsewhere e = cc

  -- No entry is left of a channel whose request id is deleted.
  deleted-Apart :
      (table : Table) (id n : ℕ)
      → ((k : ℕ) → Answers k (table k))
      → (k : ℕ) → Apart id n (delete id table k)
  unfolding delete put
  deleted-Apart table id n own k = elim (Bool-cases (k == id)) [
    | inl e ↦ rw e (nil-Apart id n)
    | inr e ↦ rw e (λ same.
        let mine : id ≡ k = rw same at (own k) in elsewhere (sym (eq→== k id (sym mine)) ∙ e))
  ]

  event-Apart : (ch : Channel) (id n : ℕ) → NoAnswer ch → Apart id n ch
  event-Apart nil_channel id n no_answer = nil-Apart id n
  event-Apart (response_channel k m) id n no_answer = absurd no_answer
  event-Apart (subscription_channel m capacity) id n no_answer = subscription-Apart id n m capacity

  -- The round of the receiver on a response that ParseMessage fails on.
  receive-unparsed :
      (c : Client) (h : Headers) (r : RequestResponseHeader) (tail : Bytes) (e : Error)
      → (read_headers (new_reader_size c.connection 20000)).0 ≡ ok (some (h, tail))
      → h.request_response_header ≡ some r
      → parse_message unmarshal (some h) tail ≡ err e
      → receive unmarshal c ≡ (
        idle,
        forget r.request_id (record c {
          connection = (read_headers (new_reader_size c.connection 20000)).1.connection;
        }),
      )
  unfolding receive round_found dispatch
  receive-unparsed c h r tail e found response failed = rw (receive, found, failed, response) refl

  -- If the receiver reads the headers of a response, and ParseMessage fails on what follows them, then
  -- the call that waits on the channel under the request id of the response is never answered: the
  -- round takes its entry away, and whatever steps the client makes from then on, the call waits, or
  -- has returned the error of a timeout.
  pub unparsed-Unanswered :
      (conn : Connection) (s u : System X) (h : Headers) (r : RequestResponseHeader) (tail : Bytes)
      (e : Error) (q : Message (Data X)) (n : ℕ) (before after : List (Call (Data X)))
      → Steps unmarshal (initial conn) s
      → (read_headers (new_reader_size s.client.connection 20000)).0 ≡ ok (some (h, tail))
      → h.request_response_header ≡ some r
      → parse_message unmarshal (some h) tail ≡ err e
      → s.client.transactions r.request_id ≡ response_channel r.request_id n
      → s.calls ≡ before ++ call q r.request_id (waiting (response_channel r.request_id n)) ∷ after
      → Steps unmarshal (receiver_turn unmarshal s) u
      → ((receiver_turn unmarshal s).client.transactions r.request_id ≡ nil_channel)
        × SomeAt
            (Unanswered q r.request_id (response_channel r.request_id n))
            (length after)
            u.calls
  unfolding receiver_turn forget
  unparsed-Unanswered conn s u h r tail e q n before after steps found response failed entry at_call
        steps' =
      let id = r.request_id in
      let matches = Steps-Matches unmarshal steps (initial-Matches unmarshal conn) in
      let round = receive-unparsed s.client h r tail e found response failed in
      let made = Steps-Made unmarshal steps (initial-Made unmarshal conn) in
      let tables : TablesHave (Apart id n) (receive unmarshal s.client).1 =
        subst (TablesHave (Apart id n)) (sym (ap (λ x. x.1) round)) (record {
          own = deleted-Apart s.client.transactions id n matches.transactions_match;
          events = λ k. event-Apart (s.client.subscriptions k) id n (matches.subscriptions_match k);
        }) in
      let lost : IsLost unmarshal q id n (length after) (receiver_turn unmarshal s) = record {
        everywhere = record {
          tables = tables;
          receiver_has = subst (SendsOn (Apart id n)) (sym (ap (λ x. x.0) round)) tt;
        };
        old = rw entry at (made.tables.own id);
        unanswered =
            (call q id (waiting (response_channel id n)), inl refl, (before, after, at_call, refl));
      } in
      (
        ap (λ x. x.1.transactions id) round ∙ delete-eq id s.client.transactions,
        (Steps-IsLost unmarshal q id n (length after) steps' lost).unanswered,
      )
