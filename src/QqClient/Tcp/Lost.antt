-- ===== src/QqClient/Tcp/Lost.antt =====
-- What a `receive_packet` of `TcpQQClient` (napcat-rs/crates/qq-client) loses.
use Prim.Native.String.append
use nap_cat_qq_rs.Prelude.{String}
