-- ===== src/Api/Filter/Tests.antt =====
-- Filters of concrete queries.
use nap_cat_qq_rs.Text.Words.{split}
use nap_cat_qq_rs.Prelude.{retain}
use nap_cat_qq_rs.Prelude.{ℕ, String, ◌≡◌, refl, none, some, [], ◌∷◌}
use nap_cat_qq_rs.Text.{trim}
use nap_cat_qq_rs.Text.Words.{join}
use nap_cat_qq_rs.Protocol.{ProtocolEvent, warning}
use nap_cat_qq_rs.Api.Filter.{ListenQuery, parse_event_type_list}

-- Texts without capital letters.
abbrev lower : String → String
lower s = s

abbrev late : ProtocolEvent ℕ
late = warning "late"

abbrev both_types : ListenQuery
both_types = record {
  timeout_ms = none;
  timeout = none;
  max_events = none;
  limit = none;
  type_filter = some (join "," ("message" ∷ "meta_event" ∷ []));
  types_filter = some "notice";
  post_type = none;
}

spaced_list : parse_event_type_list lower " message ,, meta_event" ≡ "message" ∷ "meta_event" ∷ []
unfolding parse_event_type_list retain split trim
spaced_list = refl
