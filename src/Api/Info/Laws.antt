-- ===== src/Api/Info/Laws.antt =====
-- How the reading handlers agree with each other.
use nap_cat_qq_rs.Prelude.{
  String, ◌==◌, ◌≡◌, refl, Bool, true, false, none, some, List, [], ◌∷◌, ok, err, or_else, arith,
  if◌then◌else◌,
}
use nap_cat_qq_rs.Prelude.Int.{pos}
use nap_cat_qq_rs.Text.{trim}
use nap_cat_qq_rs.Api.{invalid, ok_envelope, GroupInfo, ApiState}
use nap_cat_qq_rs.Api.Info.{
  compatibility_default_groups, group_info_from_cache, find_group, login_status, get_status_compat,
  get_login_info, list_groups, get_group_info, known_groups, found_group,
}

module _ {Backend Value : Type 0} (state : ApiState Backend Value) where
  -- The three handlers on the login give the same flag and the same return code, 0 if the runtime
  -- is running and 1201 if it is not. The status of `get_status` and `get_login_info` is `ok` in
  -- the first case and `failed` in the second; that of `login_status` is `ok` in both.
  pub statuses_agree :
      ((login_status state).data' ≡ (get_status_compat state).data')
      × ((login_status state).data'.online ≡ state.runtime_running)
      × ((get_login_info state).data'.online ≡ state.runtime_running)
      × ((login_status state).retcode ≡ (get_status_compat state).retcode)
      × ((get_login_info state).retcode ≡ (get_status_compat state).retcode)
      × ((get_status_compat state).retcode ≡ (if state.runtime_running then pos 0 else pos 1201))
      × ((get_status_compat state).status ≡ (if state.runtime_running then "ok" else "failed"))
      × ((get_login_info state).status ≡ (get_status_compat state).status)
      × ((login_status state).status ≡ "ok")
  unfolding login_status get_status_compat get_login_info
  statuses_agree = ground arith

  -- With the default groups allowed, `get_group_info` answers each group that `list_groups` finds
  -- under a trimmed id that is not empty.
  pub listed_found :
      (group_id : String) (group : GroupInfo)
      → (trim group_id == "") ≡ false
      → find_group (trim group_id) (list_groups state).data' ≡ some group
      → get_group_info (record { group_id = group_id; no_cache = false }) state
        ≡ ok (ok_envelope (group_info_from_cache group))
  unfolding list_groups get_group_info
  listed_found group_id group named listed = ground arith

  g1_lookup :
      (no_cache : Bool)
      → get_group_info (record { group_id = "g1"; no_cache = no_cache }) state
        ≡ found_group "g1" (
            or_else
              (find_group "g1" state.runtime_groups)
              (find_group "g1" (if no_cache then [] else compatibility_default_groups)))
  unfolding get_group_info trim
  g1_lookup no_cache = refl

  -- The defect: with a cache that is not empty and has no group `g1`, `list_groups` does not list
  -- `g1`, but `get_group_info` answers it, with the name of the built-in example; with `no_cache`,
  -- which keeps the examples out and not the cache, it does not find the group.
  pub unlisted_found :
      (group : GroupInfo) (groups : List GroupInfo)
      → state.runtime_groups ≡ group ∷ groups
      → find_group "g1" (group ∷ groups) ≡ none
      → (find_group "g1" (list_groups state).data' ≡ none)
        × (get_group_info (record { group_id = "g1"; no_cache = false }) state
            ≡ ok (
                ok_envelope
                  (group_info_from_cache (record { group_id = "g1"; group_name = "devops" }))))
        × (get_group_info (record { group_id = "g1"; no_cache = true }) state
            ≡ err (invalid "group not found: g1"))
  unfolding list_groups found_group find_group
  unlisted_found group groups cached missing = (
    rw (cached, list_groups, known_groups) missing,
    rw (g1_lookup false, none_cached) refl,
    rw (g1_lookup true, none_cached) refl,
  )
    where
      none_cached : find_group "g1" state.runtime_groups ≡ none
      none_cached = rw cached missing
