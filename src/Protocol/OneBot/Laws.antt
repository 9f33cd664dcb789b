-- ===== src/Protocol/OneBot/Laws.antt =====
-- What `connect` of `OneBotHttpBackend` makes of its endpoint.
use nap_cat_qq_rs.Prelude.{String, ◌≡◌, true, false, ok, err, arith, is_ok}
use nap_cat_qq_rs.Text.{is_blank, trim}
use nap_cat_qq_rs.Protocol.{transport}
use nap_cat_qq_rs.Protocol.OneBot.{OneBotHttpBackend, Http, is_url, get_status, connect}

-- An endpoint that `connect` accepts.
pub record IsAccepted (endpoint : String) : Type 0 where
  pub given : is_blank endpoint ≡ false
  pub url : is_url (trim endpoint) ≡ true

module _ {Value : Type 0} (http : Http Value) where
  connect-accepted :
      (endpoint : String) (backend : OneBotHttpBackend)
      → IsAccepted endpoint
      → connect http endpoint backend ≡ elim (get_status http backend) [
        | err e ↦ (err e, backend)
        | ok online ↦ (ok tt, record backend { connected = true; stop_requested = false })
      ]
  unfolding connect is_blank
  connect-accepted endpoint backend h = ground (arith, h.given, h.url)

  -- The defect: `connect` does not use the endpoint that it is given. For any two endpoints that
  -- are not blank and begin with `http://` or `https://`, it does the same: it asks the stored base
  -- URL for the status; and if that URL is blank, it fails, whatever the endpoint is.
  pub connect_ignores_endpoint :
      (first second : String) (backend : OneBotHttpBackend)
      → IsAccepted first
      → IsAccepted second
      → (connect http first backend ≡ connect http second backend)
        × (is_ok (connect http first backend).0 ≡ is_ok (get_status http backend))
        × (connect http first (record backend { base_url = "" })
            ≡ (err (transport "empty base URL"), record backend { base_url = "" }))
  unfolding get_status is_blank
  connect_ignores_endpoint first second backend f s =
      rw
        (
          connect-accepted first backend f,
          connect-accepted second backend s,
          connect-accepted first (record backend { base_url = "" }) f,
        )
        (ground arith)
