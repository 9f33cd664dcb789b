-- ===== src/Api/Info/Tests.antt =====
-- The reading handlers at concrete states.
use nap_cat_qq_rs.Prelude.{ℕ, ◌≡◌, refl, false, none, [], ◌∷◌}
use nap_cat_qq_rs.Api.{ApiState, with_protocol, set_groups}

abbrev cached : ApiState ℕ ℕ
cached = record {
  plugin_manager = record { plugins = [] };
  dispatched = [];
  protocol = none;
  runtime_running = false;
  runtime_groups = record { group_id = "g7"; group_name = "ops" } ∷ [];
  runtime_users = [];
}

cached_built : set_groups cached.runtime_groups (with_protocol none) ≡ cached
unfolding set_groups with_protocol
cached_built = refl
