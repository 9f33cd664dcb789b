-- ===== src/Config/Ranges.antt =====
-- The numbers of the environment of napcat-rs/crates/config: their ranges and their errors.
use nap_cat_qq_rs.Prelude.{
  ℕ, ◌<◌, ◌^◌, String, ◌≡◌, ◌⊎◌, inl, inr, Option, none, some, ok, err, arith, Result-cases,
  Option-cases,
}
use nap_cat_qq_rs.Text.Decimal.{
  ParseIntError, parse_uint, describe, to_decimal, parse_uint-lt, parse_uint-to_decimal,
}
use nap_cat_qq_rs.Config.{AppConfigPatch, ConfigError, env_parse}
use nap_cat_qq_rs.Config.Env.{parse_var, load_env}

-- What `parse_var` answers: the number in the variable, which fits the type, or the parse error with
-- the variable's name.
parse_var-lt :
    (env : String → Option String) (key : String) (bound n : ℕ)
    → 0 < bound
    → parse_var env key bound ≡ ok (some n)
    → n < bound
unfolding parse_var
parse_var-lt env key bound n h e = elim (Option-cases (env key)) [
  | inl unset ↦ ground arith
  | inr (text, set) ↦ elim (Result-cases (parse_uint bound text)) [
    | inl (m, p) ↦ ground (arith, parse_uint-lt bound text n h)
    | inr (x, p) ↦ ground arith
  ]
]

-- Which variable a parse error is about, and why.
abbrev pub Rejected : (String → Option String) → String → ℕ → ConfigError → Type 0
Rejected env key bound e =
    (text : String) × (x : ParseIntError) × (env key ≡ some text)
    × (parse_uint bound text ≡ err x)
    × (e ≡ env_parse key (describe x))

parse_var-Rejected :
    (env : String → Option String) (key : String) (bound : ℕ) (e : ConfigError)
    → parse_var env key bound ≡ err e
    → Rejected env key bound e
unfolding parse_var
parse_var-Rejected env key bound e h = elim (Option-cases (env key)) [
  | inl unset ↦ ground arith
  | inr (text, set) ↦ elim (Result-cases (parse_uint bound text)) [
    | inl (m, p) ↦ ground arith
    | inr (x, p) ↦ (text, x, set, p, ground arith)
  ]
]

-- `load_env` fails only for one of the three numeric variables, which is set to a text that does not
-- parse, and the error names that variable and the reason.
pub load_env_error :
    (env : String → Option String) (e : ConfigError)
    → load_env env ≡ err e
    → Rejected env "NAPCAT_PORT" (2 ^ 16) e
      ⊎ Rejected env "NAPCAT_PROTOCOL_LISTEN_TIMEOUT_MS" (2 ^ 64) e
      ⊎ Rejected env "NAPCAT_PROTOCOL_LISTEN_MAX_EVENTS" (2 ^ 64) e
unfolding load_env
load_env_error env e h = elim (Result-cases (parse_var env "NAPCAT_PORT" (2 ^ 16))) [
  | inr (x, p) ↦ inl (parse_var-Rejected env "NAPCAT_PORT" (2 ^ 16) e (ground arith))
  | inl (a, p) ↦ elim (Result-cases (parse_var env "NAPCAT_PROTOCOL_LISTEN_TIMEOUT_MS" (2 ^ 64))) [
    | inr (x, q) ↦
        inr (
          inl
            (parse_var-Rejected env "NAPCAT_PROTOCOL_LISTEN_TIMEOUT_MS" (2 ^ 64) e (ground arith)))
    | inl (b, q) ↦
        inr (
          inr
            (parse_var-Rejected env "NAPCAT_PROTOCOL_LISTEN_MAX_EVENTS" (2 ^ 64) e (ground arith)))
  ]
]

load_env_parts :
    (env : String → Option String) (patch : AppConfigPatch)
    → load_env env ≡ ok patch
    → (parse_var env "NAPCAT_PORT" (2 ^ 16) ≡ ok patch.port)
      × (parse_var env "NAPCAT_PROTOCOL_LISTEN_TIMEOUT_MS" (2 ^ 64)
          ≡ ok patch.protocol_listen_timeout_ms)
      × (parse_var env "NAPCAT_PROTOCOL_LISTEN_MAX_EVENTS" (2 ^ 64)
          ≡ ok patch.protocol_listen_max_events)
unfolding load_env
load_env_parts env patch h = ground arith

-- A value, if there is one, is below the bound.
abbrev pub Fits : ℕ → Option ℕ → Type 0
Fits bound none = Unit {0}
Fits bound (some n) = n < bound

parse_var-Fits :
    (env : String → Option String) (key : String) (bound : ℕ) (value : Option ℕ)
    → 0 < bound
    → parse_var env key bound ≡ ok value
    → Fits bound value
parse_var-Fits env key bound none h e = tt
parse_var-Fits env key bound (some n) h e = parse_var-lt env key bound n h e

-- If `load_env` succeeds, the port that it gives is a `u16` and the timeout and the batch size fit in
-- 64 bits.
pub load_env_ranges :
    (env : String → Option String) (patch : AppConfigPatch)
    → load_env env ≡ ok patch
    → Fits (2 ^ 16) patch.port
      × Fits (2 ^ 64) patch.protocol_listen_timeout_ms
      × Fits (2 ^ 64) patch.protocol_listen_max_events
load_env_ranges env patch h =
    let (port, timeout, max_events) = load_env_parts env patch h in
    (
      parse_var-Fits env "NAPCAT_PORT" (2 ^ 16) patch.port (omega arith) port,
      parse_var-Fits env "NAPCAT_PROTOCOL_LISTEN_TIMEOUT_MS" (2 ^ 64)
          patch.protocol_listen_timeout_ms (omega arith) timeout,
      parse_var-Fits env "NAPCAT_PROTOCOL_LISTEN_MAX_EVENTS" (2 ^ 64)
          patch.protocol_listen_max_events (omega arith) max_events,
    )

parse_var_set :
    (env : String → Option String) (key : String) (bound n : ℕ)
    → n < bound
    → env key ≡ some (to_decimal n)
    → parse_var env key bound ≡ ok (some n)
unfolding parse_var
parse_var_set env key bound n h set = ground (arith, parse_uint-to_decimal bound n h)

-- A port that is printed into `NAPCAT_PORT` is the port that `load_env` gives, whenever it succeeds.
pub port_roundtrip :
    (env : String → Option String) (patch : AppConfigPatch) (n : ℕ)
    → n < 2 ^ 16
    → env "NAPCAT_PORT" ≡ some (to_decimal n)
    → load_env env ≡ ok patch
    → patch.port ≡ some n
port_roundtrip env patch n h set e =
    let read = parse_var_set env "NAPCAT_PORT" (2 ^ 16) n h set in
    let (port, _, _) = load_env_parts env patch e in cc (read, port)
