-- ===== src/QqClient/Endpoint.antt =====
-- `normalize_tcp_endpoint` and `effective_timeout_ms` of napcat-rs/crates/qq-client.
pub mod Laws
use nap_cat_qq_rs.Prelude.{
  ℕ, Char, String, ◌<>◌, Bool, Option, none, some, Result, ok, err, unwrap_or, or_else, eqb,
  if◌then◌else◌,
}
use Prim.Native.Char.{code}
use nap_cat_qq_rs.Text.{trim, is_blank}
use nap_cat_qq_rs.Text.Split.{contains}
use nap_cat_qq_rs.Text.Prefix.{strip_prefix}
use nap_cat_qq_rs.QqClient.{QqClientError, transport}

-- `split_once("://")`, of which only the tail is read.
unfoldable pub after_scheme : String → Option String
unfolding strip_prefix
after_scheme String.[] = none
after_scheme (String.◌∷◌ c s) = or_else (strip_prefix "://" (String.◌∷◌ c s)) (after_scheme s)

-- `split(c).next().unwrap_or_default()`
unfoldable pub before : Char → String → String
before c String.[] = ""
before c (String.◌∷◌ d s) =
    let rest = before c s in if eqb (code d) (code c) then "" else String.◌∷◌ d rest

-- The last two tests and the answer.
check_host : String → Result QqClientError String
check_host host =
    if is_blank host
    then err (transport "invalid tcp endpoint")
    else if contains ":" host
    then ok host
    else err (transport ("tcp endpoint requires host:port, got " <> host))

unfoldable pub normalize_tcp_endpoint : String → Result QqClientError String
unfolding after_scheme before check_host
normalize_tcp_endpoint raw =
    let trimmed = trim raw in
    let without_scheme = unwrap_or (after_scheme trimmed) trimmed in
    if is_blank raw
    then err (transport "empty tcp endpoint")
    else check_host (before "/" (before "?" without_scheme))

unfoldable pub effective_timeout_ms : ℕ → ℕ
effective_timeout_ms raw = if eqb raw 0 then 2000 else raw
