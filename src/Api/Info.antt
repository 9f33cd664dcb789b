-- ===== src/Api/Info.antt =====
-- The handlers of napcat-rs/crates/api that only read the state: health, login, groups and users.
mod Laws
mod Tests
use nap_cat_qq_rs.Prelude.{
  ℕ, String, ◌<>◌, ◌==◌, Bool, true, false, Option, none, some, List, [], ◌∷◌, map, Result, ok, err,
  or_else, is_empty, if◌then◌else◌,
}
use nap_cat_qq_rs.Prelude.Int.{ℤ, pos}
use nap_cat_qq_rs.Text.{trim}
use nap_cat_qq_rs.Api.{ApiEnvelope, ApiError, invalid, ok_envelope, GroupInfo, UserInfo, ApiState}

pub record LoginStatusData : Type 0 where
  pub online : Bool
  pub message : String

pub record LoginInfoData : Type 0 where
  pub user_id : String
  pub nickname : String
  pub online : Bool

pub record FriendInfo : Type 0 where
  pub user_id : String
  pub nickname : String
  pub remark : String

pub record GroupInfoResponse : Type 0 where
  pub group_id : String
  pub group_name : String
  pub group_memo : String
  pub group_create_time : ℕ
  pub group_level : String
  pub member_count : ℕ
  pub max_member_count : ℕ
  pub admin_flag : Bool

pub record GetGroupInfoRequest : Type 0 where
  pub group_id : String
  pub no_cache : Bool

abbrev pub compatibility_default_groups : List GroupInfo
compatibility_default_groups =
    record { group_id = "g1"; group_name = "devops" }
    ∷ record { group_id = "g2"; group_name = "design" }
    ∷ []

abbrev pub compatibility_default_users : List UserInfo
compatibility_default_users =
    record { user_id = "u1"; nickname = "alice" } ∷ record { user_id = "u2"; nickname = "bob" } ∷ []

abbrev pub compatibility_default_friends : List FriendInfo
compatibility_default_friends =
    record { user_id = "u1"; nickname = "alice"; remark = "" }
    ∷ record { user_id = "u2"; nickname = "bob"; remark = "" }
    ∷ []

unfoldable pub friend_payload_from_users : List UserInfo → List FriendInfo
friend_payload_from_users users =
    map (λ user. record { user_id = user.user_id; nickname = user.nickname; remark = "" }) users

unfoldable pub group_info_from_cache : GroupInfo → GroupInfoResponse
group_info_from_cache group = record {
  group_id = group.group_id;
  group_name = group.group_name;
  group_memo = "";
  group_create_time = 0;
  group_level = "owner";
  member_count = 0;
  max_member_count = 200;
  admin_flag = true;
}

unfoldable pub health_check : ApiEnvelope (Unit {0})
health_check = record {
  status = "ok";
  retcode = pos 0;
  data' = tt;
  message = some "napcat api ready";
}

-- `find` by the id of a group.
unfoldable pub find_group : String → List GroupInfo → Option GroupInfo
find_group group_id [] = none
find_group group_id (group ∷ groups) =
    if group.group_id == group_id then some group else find_group group_id groups

found_group : String → Option GroupInfo → Result ApiError (ApiEnvelope GroupInfoResponse)
unfolding group_info_from_cache
found_group group_id (some group) = ok (ok_envelope (group_info_from_cache group))
found_group group_id none = err (invalid ("group not found: " <> group_id))

module _ {Backend Value : Type 0} where
  unfoldable pub login_status : ApiState Backend Value → ApiEnvelope LoginStatusData
  login_status state =
      let online = state.runtime_running in
      record {
        status = "ok";
        retcode = if online then pos 0 else pos 1201;
        data' = record {
          online = online;
          message = if online then "runtime running" else "runtime not logged in";
        };
        message = none;
      }

  unfoldable pub get_status_compat : ApiState Backend Value → ApiEnvelope LoginStatusData
  get_status_compat state =
      let online = state.runtime_running in
      record {
        status = if online then "ok" else "failed";
        retcode = if online then pos 0 else pos 1201;
        data' = record {
          online = online;
          message = if online then "runtime running" else "runtime not logged in";
        };
        message = if online then none else some "runtime not logged in";
      }

  unfoldable pub get_login_info : ApiState Backend Value → ApiEnvelope LoginInfoData
  get_login_info state =
      let online = state.runtime_running in
      record {
        status = if online then "ok" else "failed";
        retcode = if online then pos 0 else pos 1201;
        data' = record {
          user_id = if online then "napcat-bot" else "offline";
          nickname = "NapCatRS";
          online = online;
        };
        message = if online then none else some "runtime not logged in";
      }

  -- The cached groups, or the default ones.
  known_groups : ApiState Backend Value → List GroupInfo
  known_groups state =
      if is_empty state.runtime_groups then compatibility_default_groups else state.runtime_groups

  unfoldable pub list_groups : ApiState Backend Value → ApiEnvelope (List GroupInfo)
  unfolding known_groups
  list_groups state = ok_envelope (known_groups state)

  unfoldable pub list_group_list : ApiState Backend Value → ApiEnvelope (List GroupInfoResponse)
  unfolding known_groups group_info_from_cache
  list_group_list state = ok_envelope (map group_info_from_cache (known_groups state))

  unfoldable pub list_users : ApiState Backend Value → ApiEnvelope (List UserInfo)
  list_users state =
      ok_envelope
        (if is_empty state.runtime_users then compatibility_default_users else state.runtime_users)

  unfoldable pub get_friend_list : ApiState Backend Value → ApiEnvelope (List FriendInfo)
  unfolding friend_payload_from_users
  get_friend_list state = ok_envelope (
      if is_empty state.runtime_users
      then compatibility_default_friends
      else friend_payload_from_users state.runtime_users)

  unfoldable pub get_group_info :
      GetGroupInfoRequest → ApiState Backend Value → Result ApiError (ApiEnvelope GroupInfoResponse)
  unfolding found_group find_group
  get_group_info request state =
      let requested = trim request.group_id in
      let fallback = if request.no_cache then [] else compatibility_default_groups in
      if requested == ""
      then err (invalid "group_id is required")
      else found_group requested
          (or_else (find_group requested state.runtime_groups) (find_group requested fallback))
