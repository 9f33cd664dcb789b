-- ===== src/Protocol/Backends.antt =====
-- The three backends of napcat-rs/crates/protocol as implementations of the trait `ProtocolBackend`.
use nap_cat_qq_rs.Prelude.{ok}
use nap_cat_qq_rs.Protocol.{Codec, ProtocolBackend}
use nap_cat_qq_rs.Protocol.Qq
use nap_cat_qq_rs.Protocol.Qq.{QqClient, QqClientBackend}
use nap_cat_qq_rs.Protocol.OneBot
use nap_cat_qq_rs.Protocol.OneBot.{Http, OneBotHttpBackend}
use nap_cat_qq_rs.Protocol.Mock
use nap_cat_qq_rs.Protocol.Mock.{MockProtocol}

abbrev pub qq_backend :
    {Client Value : Type 0}
    → QqClient Client
    → Codec Value
    → ProtocolBackend (QqClientBackend Client) Value
qq_backend client codec = record {
  send_message = Qq.send_message client codec;
  listen = Qq.listen;
  disconnect = Qq.disconnect client;
}

abbrev pub onebot_backend : {Value : Type 0} → Http Value → ProtocolBackend OneBotHttpBackend Value
onebot_backend http = record {
  send_message = λ message backend. (OneBot.send_message http message backend, backend);
  listen = OneBot.listen;
  disconnect = λ backend. (ok tt, OneBot.disconnect backend);
}

abbrev pub mock_backend :
    {Value : Type 0} → Codec Value → ProtocolBackend (MockProtocol Value) Value
mock_backend codec = record {
  send_message = Mock.send_message codec;
  listen = λ backend. let (r, after, event) = Mock.listen backend in (r, after);
  disconnect = Mock.disconnect;
}
