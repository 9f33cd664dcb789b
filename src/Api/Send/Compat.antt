-- ===== src/Api/Send/Compat.antt =====
-- The routes for one channel as cases of the general route, and the ids that the routes make.
use Prim.Native.String.append
use text.Mathlib.TextLemmas.{append_cancel_left}
use nap_cat_qq_rs.Prelude.{
  String, ◌<>◌, ◌==◌, ◌≡◌, ◌↔◌, refl, false, none, some, ok, err, unwrap_or, if◌then◌else◌, arith,
  ap,
}
use nap_cat_qq_rs.Text.{trim, is_blank, is_whitespace, byte_length}
use nap_cat_qq_rs.Text.Blank.{all_white, is_blank-all_white, is_blank-trim}
use nap_cat_qq_rs.Text.Decimal.{to_decimal, to_decimal-injective}
use nap_cat_qq_rs.Message.{MessageRecipient}
use nap_cat_qq_rs.Api.{invalid}
use nap_cat_qq_rs.Api.Send.{
  MessageType, CompatSendRequest, SendPrivateRequest, SendGroupRequest, validate_recipient,
  message_id_from_text, recipient_of,
}

-- The identity of a recipient.
abbrev pub address : MessageRecipient → String
address (MessageRecipient.private user_id) = user_id
address (MessageRecipient.group group_id) = group_id

pub address-validate_recipient :
    (recipient : MessageRecipient) (u : Unit {0})
    → validate_recipient recipient ≡ ok u
    → is_blank (address recipient) ≡ false
unfolding validate_recipient
address-validate_recipient (MessageRecipient.private user_id) u h = ground arith
address-validate_recipient (MessageRecipient.group group_id) u h = ground arith

visible_recipient :
    (name message : String) (built recipient : MessageRecipient)
    → address built ≡ trim name
    → (if trim name == "" then err (invalid message) else ok built) ≡ ok recipient
    → is_blank (address recipient) ≡ false
unfolding is_blank
visible_recipient name message built recipient h k = ground (arith, is_blank-trim name)

pub recipient_of-visible :
    (request : CompatSendRequest) (t : MessageType) (recipient : MessageRecipient)
    → recipient_of request t ≡ ok recipient
    → is_blank (address recipient) ≡ false
unfolding recipient_of
recipient_of-visible request MessageType.private recipient h =
    visible_recipient (unwrap_or request.user_id "") _ _ recipient refl h
recipient_of-visible request MessageType.group recipient h =
    visible_recipient (unwrap_or request.group_id "") _ _ recipient refl h

pub id_visible : (content : String) → is_blank (message_id_from_text content) ≡ false
unfolding message_id_from_text all_white is_whitespace
id_visible content =
    rw (is_blank-all_white (message_id_from_text content))
      (ap all_white (append.cons "a" "pi-" (to_decimal (byte_length content))))

-- The request of one channel as a compatible request.
abbrev pub private_request : SendPrivateRequest → CompatSendRequest
private_request request = record {
  message_type = MessageType.private;
  user_id = some request.user_id;
  group_id = none;
  message = request.message;
}

abbrev pub group_request : SendGroupRequest → CompatSendRequest
group_request request = record {
  message_type = MessageType.group;
  user_id = none;
  group_id = some request.group_id;
  message = request.message;
}

-- The id of a message tells the number of its bytes and no more: two texts get one id exactly when
-- they have as many bytes.
pub same_id-iff_same_length :
    (a b : String)
    → (message_id_from_text a ≡ message_id_from_text b) ↔ (byte_length a ≡ byte_length b)
unfolding message_id_from_text
same_id-iff_same_length a b = (
  λ h. to_decimal-injective (byte_length a) (byte_length b) (append_cancel_left "api-" _ _ h),
  λ h. ap (λ n. "api-" <> to_decimal n) h,
)
