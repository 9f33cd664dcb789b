-- ===== src/QqClient/Tcp/Login.antt =====
-- How long `login` of `TcpQQClient` waits for its answer.
use nap_cat_qq_rs.Prelude.{
  ℕ, zero, suc, String, ◌==◌, ◌≡◌, true, false, Option, some, List, [], ◌∷◌, ◌++◌, map, Result, ok,
  err, arith, length, ltb, unwrap_or, if◌then◌else◌,
}
use nap_cat_qq_rs.Text.{is_blank, trim_end}
use nap_cat_qq_rs.QqClient.{Packet, QqClientError, timeout, logged_in}
use nap_cat_qq_rs.QqClient.Tcp.{
  Wire, written, ReadOutcome, line, read_line, TcpQqClient, parse_wire_line, is_open_state,
  recv_once_with_timeout, wait_rounds, wait_for_login_ack, next_round, on_packet, finish_login,
  login,
}

ltb-zero : (n : ℕ) → ltb n 0 ≡ false
ltb-zero n = ground arith

zero-ltb : (n : ℕ) → ltb 0 (suc n) ≡ true
zero-ltb n = ground arith

ltb-suc : (m n : ℕ) → ltb (suc m) (suc n) ≡ ltb m n
ltb-suc m n = ground arith

module _ (wire : Wire) where
  -- The line holds a packet that is no answer to the login.
  abbrev pub IsNoise : String → Type 0
  IsNoise text =
      (packet : Packet) × (parse_wire_line wire (trim_end (read_line text)) ≡ ok packet)
      × ((packet.route == "auth.ok") ≡ false)
      × ((packet.route == "system.error") ≡ false)

  abbrev pub AreNoise : List String → Type 0
  AreNoise [] = Unit {0}
  AreNoise (text ∷ texts) = IsNoise text × AreNoise texts

  -- The line holds the server's consent, with the token or without one.
  pub record IsConsent (text : String) (found : Option String) : Type 0 where
    pub packet : Packet
    pub parses : parse_wire_line wire (trim_end (read_line text)) ≡ ok packet
    pub route : packet.route ≡ "auth.ok"
    pub login : wire.parse_login packet.payload ≡ ok found

  module _ {Socket : Type 0} (client : TcpQqClient Socket) (socket : Socket) where
    recv-line :
        (text : String) (packet : Packet)
        → is_open_state client.state ≡ true
        → client.stream ≡ some socket
        → parse_wire_line wire (trim_end (read_line text)) ≡ ok packet
        → recv_once_with_timeout wire (line text) client ≡ (ok (some packet), client)
    unfolding recv_once_with_timeout
    recv-line text packet o s p = ground arith

    abbrev answered : ℕ → ℕ → Option String → Result QqClientError String × TcpQqClient Socket
    answered noise rounds found =
        if ltb noise rounds
        then (
          ok (unwrap_or found "session"),
          record client { token = some (unwrap_or found "session") },
        )
        else (err (timeout "login ack not received"), client)

    on_packet-consent :
        (packet : Packet) (found : Option String)
        (rest : Result QqClientError String × TcpQqClient Socket)
        → packet.route ≡ "auth.ok"
        → wire.parse_login packet.payload ≡ ok found
        → on_packet wire packet client rest ≡ (
          ok (unwrap_or found "session"),
          record client { token = some (unwrap_or found "session") },
        )
    unfolding on_packet
    on_packet-consent packet found rest r p = rw (r, on_packet, p)

    wait_rounds-answered :
        (n : ℕ) (noise : List String) (consent : String) (found : Option String)
        (rest : List ReadOutcome)
        → is_open_state client.state ≡ true
        → client.stream ≡ some socket
        → AreNoise noise
        → IsConsent consent found
        → wait_rounds wire n (map line noise ++ line consent ∷ rest) client
          ≡ answered (length noise) n found
    unfolding wait_rounds
    wait_rounds-answered zero noise consent found rest o s h c = rw (ltb-zero (length noise))
    wait_rounds-answered (suc n) [] consent found rest o s h c =
        rw (recv-line consent c.packet o s c.parses, next_round)
          (rw (zero-ltb n) (on_packet-consent c.packet found _ c.route c.login))
    wait_rounds-answered (suc n) (text ∷ noise) consent found rest o s h c =
        let (packet, p, a, e) = h.0 in
        rw (recv-line text packet o s p, next_round, on_packet, a, e)
          (rw (ltb-suc (length noise) n)
            (wait_rounds-answered n noise consent found rest o s h.1 c))

    enough :
        (account password : String) (noise : List String) (found : Option String)
        (reads : List ReadOutcome)
        → is_open_state client.state ≡ true
        → client.stream ≡ some socket
        → is_blank account ≡ false
        → is_blank password ≡ false
        → wait_rounds wire 4 reads client ≡ answered (length noise) 4 found
        → login wire account password written reads client ≡ (
            if ltb (length noise) 4
            then (
              ok (unwrap_or found "session"),
              record client { token = some (unwrap_or found "session"); state = logged_in },
            )
            else (err (timeout "login ack not received"), client))
    unfolding login wait_for_login_ack finish_login
    enough account password noise found reads o s a p w = ground arith

    -- On an open session with a stream, with an account and a password that are not blank and a
    -- request that is sent: if `noise` packets that are no answer come before the server's consent,
    -- `login` gives the token (`session` where the consent has none), keeps it and is logged in,
    -- when there are fewer than four of them; with four or more it gives up with a timeout, and the
    -- client is as it was.
    pub login_patience :
        (account password : String) (noise : List String) (consent : String) (found : Option String)
        (rest : List ReadOutcome)
        → is_open_state client.state ≡ true
        → client.stream ≡ some socket
        → is_blank account ≡ false
        → is_blank password ≡ false
        → AreNoise noise
        → IsConsent consent found
        → login wire account password written (map line noise ++ line consent ∷ rest) client ≡ (
            if ltb (length noise) 4
            then (
              ok (unwrap_or found "session"),
              record client { token = some (unwrap_or found "session"); state = logged_in },
            )
            else (err (timeout "login ack not received"), client))
    login_patience account password noise consent found rest o s a p h c =
        enough account password noise found (map line noise ++ line consent ∷ rest) o s a p
          (wait_rounds-answered 4 noise consent found rest o s h c)
