-- ===== src/Message/Tests.antt =====
-- The predicates on messages at concrete ones.
use nap_cat_qq_rs.Prelude.{String, ◌≡◌, refl, true, none, [], ◌∷◌, ok, any}
use nap_cat_qq_rs.Message.{
  MessageRecipient, text, image, Message, is_image_message, echo_handler, dispatch,
}

abbrev greeting : Message String
greeting = record {
  id = "1";
  sender_id = "u1";
  recipient = MessageRecipient.group "g1";
  elements = text "hi" ∷ image "a.png" none ∷ [];
}

greeting_image : is_image_message greeting ≡ true
unfolding is_image_message any
greeting_image = refl

greeting_echo :
    dispatch echo_handler greeting ≡ ok (record { accepted = true; detail = "group:g1" })
unfolding dispatch echo_handler
greeting_echo = refl
