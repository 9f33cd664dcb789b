-- ===== src/Protocol/OneBot/Listener/Tests.antt =====
-- The listener at concrete rounds. A value is a number; it has itself as its only item.
use nap_cat_qq_rs.Protocol.OneBot.Listener.Laws.{round_events}
use nap_cat_qq_rs.Protocol.OneBot.Listener.Laws.{item_event}
use nap_cat_qq_rs.Protocol.OneBot.Listener.{from_json}
use nap_cat_qq_rs.Protocol.OneBot.Listener.{decode_item}
use nap_cat_qq_rs.Prelude.{ℕ, ◌≡◌, refl, true, false, none, some, [], ◌∷◌, ok, err}
use nap_cat_qq_rs.Protocol.{connected, disconnected, warning}
use nap_cat_qq_rs.Protocol.OneBot.{Http, OneBotHttpBackend}
use nap_cat_qq_rs.Protocol.OneBot.Listener.{EventJson, Round, listen_task}
use nap_cat_qq_rs.Protocol.OneBot.Listener.Laws.{all_events, listen_task-all_events}

abbrev http : Http ℕ
http = record {
  send = λ request. err "offline";
  get_field = λ name value. some value;
  as_bool = λ value. none;
  show = λ value. "";
}

abbrev events : EventJson ℕ
events = record {
  as_str = λ value. none;
  as_array = λ value. some (value ∷ []);
  from_str = λ text. err "no text";
  from_value = λ value. ok disconnected;
}

abbrev backend : OneBotHttpBackend
backend = record {
  base_url = "http://h";
  access_token = none;
  listen_timeout_ms = 600;
  listen_max_events = 8;
  connected = true;
  listening = true;
  stop_requested = false;
}

abbrev failing : Round ℕ
failing = record { connected = true; stop_requested = false; received = err "refused"; heard = [] }

abbrev answering : Round ℕ
answering = record failing {
  received = ok (record { is_success = true; status = "200"; json = ok 1 });
}

abbrev stopped : Round ℕ
stopped = record failing { stop_requested = true }

listen_task-all_events_example :
    listen_task http events backend (failing ∷ answering ∷ stopped ∷ []) ≡ (
      connected "http://h"
          ∷ warning "message/listen failed: refused"
          ∷ disconnected
          ∷ disconnected
          ∷ [],
      true,
    )
unfolding all_events round_events from_json item_event decode_item
listen_task-all_events_example =
    listen_task-all_events http events backend (failing ∷ answering ∷ []) stopped []
      (
        record { connected = refl; asked = refl; heard = refl },
        (record { connected = refl; asked = refl; heard = refl }, tt),
      )
      refl
