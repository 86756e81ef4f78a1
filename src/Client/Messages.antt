-- ===== src/Client/Messages.antt =====
-- ParseMessage keeps the headers that it is given.
use zbc_go.Common.{arith, ◌≡◌, refl, ◌==◌, Bool, true, false, if◌then◌else◌, Option, some}
use zbc_go.Wire.{Bytes, Outcome, ok, err, panic}
use zbc_go.Wire.Outcomes.{◌>>=◌, deref}
use zbc_go.Sbe.MessageHeader.{MessageHeader}
use zbc_go.Message.{Headers, Message, Sbe, set_headers, no_message}
use zbc_go.Message.{template_id_execute_command_request, template_id_execute_command_response}
use zbc_go.Message.{template_id_control_message_response, template_id_subscription_event}
use zbc_go.Reader.Parse.{parse_message, parse_parts, with_parts, parse_message_pack}
use zbc_go.Reader.Parse.{
  decode_cmd_request, decode_cmd_response, decode_ctl_response, decode_sub_event,
}

module _ {D : Type 0} (hs : Option Headers) where
  -- Whatever message comes out has the headers `hs`.
  abbrev Keeps : Outcome (Message D) → Type 0
  Keeps x = (m : Message D) → x ≡ ok m → m.headers ≡ hs

  ok-Keeps : (m : Message D) → m.headers ≡ hs → Keeps (ok m)
  ok-Keeps m h m' e = ground arith

  >>=-Keeps :
      {A : Type 0} (x : Outcome A) (f : A → Outcome (Message D))
      → ((a : A) → Keeps (f a))
      → Keeps (x >>= f)
  >>=-Keeps (ok a) f each m e = each a m e
  >>=-Keeps (err x) f each m e = cc
  >>=-Keeps (panic x) f each m e = cc

  if-Keeps : (b : Bool) (x y : Outcome (Message D)) → Keeps x → Keeps y → Keeps (if b then x else y)
  if-Keeps true x y hx hy = hx
  if-Keeps false x y hx hy = hy

  module _ (unmarshal : Bytes → Option D) (msg : Message D) (same : msg.headers ≡ hs) where
    with_parts-Keeps : (sbe : Sbe) (bs : Bytes) → Keeps (with_parts unmarshal msg sbe bs)
    unfolding with_parts
    with_parts-Keeps sbe bs = >>=-Keeps (parse_message_pack unmarshal bs) _ λ item. ok-Keeps _ same

    parse_parts-Keeps : (m : MessageHeader) (bs : Bytes) → Keeps (parse_parts unmarshal msg m bs)
    unfolding parse_parts
    parse_parts-Keeps m bs =
        if-Keeps (m.template_id == template_id_execute_command_request) _ _
          (>>=-Keeps (decode_cmd_request bs m) _ λ e. with_parts-Keeps _ _)
          (if-Keeps (m.template_id == template_id_execute_command_response) _ _
            (>>=-Keeps (decode_cmd_response bs m) _ λ e. with_parts-Keeps _ _)
            (if-Keeps (m.template_id == template_id_control_message_response) _ _
              (>>=-Keeps (decode_ctl_response bs m) _ λ c. with_parts-Keeps _ _)
              (if-Keeps (m.template_id == template_id_subscription_event) _ _
                (>>=-Keeps (decode_sub_event bs m) _ λ s. with_parts-Keeps _ _)
                (ok-Keeps msg same))))

pub parse_message-headers :
    {D : Type 0} (unmarshal : Bytes → Option D) (h : Headers) (bs : Bytes) (m : Message D)
    → parse_message unmarshal (some h) bs ≡ ok m
    → m.headers ≡ some h
unfolding parse_message
parse_message-headers unmarshal h bs =
    >>=-Keeps (some h) (deref h.sbe_message_header) _ λ header.
      parse_parts-Keeps (some h) unmarshal (set_headers (some h) no_message) refl header bs
