-- ===== src/Protocol/Handler/Laws.antt =====
-- `forward_to_handler` beside `dispatch` of napcat-rs/crates/message.
use nap_cat_qq_rs.Prelude.{String, ◌<>◌, ◌≡◌, refl, true, false, Result, ok, ◌>>=◌, is_ok}
use nap_cat_qq_rs.Message.{Message, MessageError, HandleResult, MessageHandler, dispatch}
use nap_cat_qq_rs.Protocol.{message_received}
use nap_cat_qq_rs.Protocol.Handler.{forward_to_handler}

module _ {Value : Type 0} (handler : MessageHandler Value) (m : Message Value) where
  -- What `dispatch` answers, in the words of `forward_to_handler`.
  abbrev named : Result MessageError HandleResult → Result MessageError String
  named r = r >>= λ outcome. ok (handler.name <> (": " <> outcome.detail))

  -- For a message that the handler can handle, `forward_to_handler` answers what `dispatch` does,
  -- with the handler's name.
  pub forward-dispatch :
      handler.can_handle m ≡ true
      → forward_to_handler handler (message_received m) ≡ named (dispatch handler m)
  unfolding forward_to_handler dispatch
  forward-dispatch h = rw h refl

  -- The defect: `forward_to_handler` does not ask the handler whether it can handle a message. One
  -- that `dispatch` refuses is handled all the same.
  pub forward_unasked :
      (outcome : HandleResult)
      → handler.can_handle m ≡ false
      → handler.handle m ≡ ok outcome
      → (is_ok (dispatch handler m) ≡ false)
        × (forward_to_handler handler (message_received m)
            ≡ ok (handler.name <> (": " <> outcome.detail)))
  unfolding forward_to_handler dispatch
  forward_unasked outcome h k = rw (h, k) (refl, refl)
