-- ===== src/Message/Laws.antt =====
-- What the predicates on messages say together.
use nap_cat_qq_rs.Prelude.{String, ◌≡◌, ◌↔◌, refl, false, List, [], ◌∷◌, arith, any}
use nap_cat_qq_rs.Message.{
  MessageRecipient, MessageElement, text, Message, is_image_message, is_file_message,
  is_video_message, is_at_message, is_reply_message, is_json_message,
}

module _ {Value : Type 0} where
  abbrev pub AreTexts : List (MessageElement Value) → Type 0
  AreTexts [] = Unit {0}
  AreTexts (text content ∷ elements) = AreTexts elements
  AreTexts (_ ∷ elements) = ⊥

  -- No predicate on the kinds of elements holds.
  abbrev pub IsPlain : Message Value → Type 0
  IsPlain message =
      (is_image_message message ≡ false)
      × (is_file_message message ≡ false)
      × (is_video_message message ≡ false)
      × (is_at_message message ≡ false)
      × (is_reply_message message ≡ false)
      × (is_json_message message ≡ false)

  IsPlain-texts :
      (id sender : String) (recipient : MessageRecipient) (elements : List (MessageElement Value))
      → IsPlain (record { id = id; sender_id = sender; recipient = recipient; elements = elements })
      → AreTexts elements
  unfolding any is_image_message is_file_message is_video_message is_at_message is_reply_message
      is_json_message
  IsPlain-texts id sender recipient [] h = tt
  IsPlain-texts id sender recipient (text content ∷ elements) h =
      IsPlain-texts id sender recipient elements h
  IsPlain-texts id sender recipient (_ ∷ elements) h = ground arith

  texts-IsPlain :
      (id sender : String) (recipient : MessageRecipient) (elements : List (MessageElement Value))
      → AreTexts elements
      → IsPlain (record { id = id; sender_id = sender; recipient = recipient; elements = elements })
  unfolding any is_image_message is_file_message is_video_message is_at_message is_reply_message
      is_json_message
  texts-IsPlain id sender recipient [] h = (refl, refl, refl, refl, refl, refl)
  texts-IsPlain id sender recipient (text content ∷ elements) h =
      texts-IsPlain id sender recipient elements h
  texts-IsPlain id sender recipient (_ ∷ elements) h = ground arith

  -- A message is of none of the six kinds exactly when each of its elements is a text.
  pub IsPlain-iff_texts : (message : Message Value) → IsPlain message ↔ AreTexts message.elements
  IsPlain-iff_texts message = (
    IsPlain-texts message.id message.sender_id message.recipient message.elements,
    texts-IsPlain message.id message.sender_id message.recipient message.elements,
  )
