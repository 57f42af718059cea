-- ===== src/Accounts/Members.antt =====
-- Members of an organization (apps/backend/src/users/users.service.ts).
use sentinel_desk.Prelude.{
  ℕ, Bool, false, not, ◌&&◌, Option, none, some, List, [], ◌∷◌, ◌++◌, Text, Result, ok, err, find,
  any, select, or_throw, throw_if, is_some, or_default, forbidden, not_found, conflict, bad_request,
  internal_error, constraint_violated, role_not_grantable, own_membership, user_not_found,
  status_not_settable, email_taken, role_not_seeded, ◌==◌, if◌then◌else◌,
}
use sentinel_desk.Schema.{RoleName, customer, agent, senior_agent, manager, admin, role_is_staff}
use sentinel_desk.Accounts.Schema.{
  User, UserStatus, invited, active, suspended, role_eq, user_status_eq, user_invited, user_updated,
  invite_email, utc_name,
}
use sentinel_desk.Accounts.Store.{
  AuthDb, AuthEnv, Action, ◌>>=◌, ◌>>◌, lift, read, write, draw_secret, draw_key, check_key_free,
  find_user, find_by_email, find_role_by_name, insert_user, update_user, record_audit, send_mail,
}
use sentinel_desk.Accounts.Tokens.{revoke_sessions}
use sentinel_desk.Accounts.Links.{new_link}

abbrev pub invite_ttl_ms : ℕ
invite_ttl_ms = 604800000

-- `ALLOWED_INVITE_ROLES`
abbrev pub allowed_invite_roles : RoleName → List RoleName
allowed_invite_roles admin = customer ∷ agent ∷ senior_agent ∷ manager ∷ admin ∷ []
allowed_invite_roles manager = customer ∷ agent ∷ senior_agent ∷ []
allowed_invite_roles senior_agent = []
allowed_invite_roles agent = []
allowed_invite_roles customer = []

abbrev pub may_grant : RoleName → RoleName → Bool
may_grant actor role = any (role_eq role) (allowed_invite_roles actor)

pub record UpdateProfileDto : Type 0 where
  pub first_name : Option Text
  pub last_name : Option Text
  pub title : Option Text
  pub phone : Option Text
  pub timezone : Option Text

abbrev pub or_keep : {A : Type 0} → Option A → Option A → Option A
or_keep none old = old
or_keep (some a) old = some a

abbrev pub with_profile : UpdateProfileDto → User → User
with_profile dto u = record u {
  first_name = or_default dto.first_name u.first_name;
  last_name = or_default dto.last_name u.last_name;
  title = or_keep dto.title u.title;
  phone = or_keep dto.phone u.phone;
  timezone = or_default dto.timezone u.timezone;
}

-- `updateProfile`, before the answer is made of the row.
unfoldable pub update_profile : AuthEnv → ℕ → UpdateProfileDto → Action (Unit {0})
unfolding update_user
update_profile env user_id dto = do
  read (λ db. or_throw (find_user user_id db) (internal_error constraint_violated))
  write (update_user user_id (with_profile dto))

-- `listOrgMembers` and `listAssignableAgents`, before the rows are sorted and described.
unfoldable pub list_org_members : ℕ → AuthDb → List User
list_org_members organization_id db = select (λ u. u.organization_id == organization_id) db.users

abbrev pub has_staff_role : AuthDb → User → Bool
has_staff_role db u = elim (find (λ r. r.id) u.role_id db.roles) [
  | none ↦ false
  | some r ↦ role_is_staff r.name
]

unfoldable pub list_assignable_agents : ℕ → AuthDb → List User
list_assignable_agents organization_id db =
    select
      (λ u.
        u.organization_id == organization_id
        && user_status_eq u.status active
        && has_staff_role db u)
      db.users

pub record InviteUserDto : Type 0 where
  pub email : ℕ
  pub first_name : Text
  pub last_name : Text
  pub role : RoleName

abbrev pub invited_user : AuthEnv → ℕ → InviteUserDto → ℕ → ℕ → User
invited_user env organization_id dto role_id key = record {
  id = key;
  organization_id = organization_id;
  email = dto.email;
  password_hash = none;
  first_name = dto.first_name;
  last_name = dto.last_name;
  avatar_url = none;
  title = none;
  phone = none;
  status = invited;
  role_id = role_id;
  timezone = utc_name;
  last_login_at = none;
  created_at = env.now;
}

-- `if (existing) throw new ConflictException(...)`
abbrev pub check_email_free : ℕ → AuthDb → Result (Unit {0})
check_email_free email db = throw_if (is_some (find_by_email email db)) (conflict email_taken)

-- `inviteUser`
unfoldable pub invite_user : AuthEnv → ℕ → ℕ → RoleName → InviteUserDto → Action User
unfolding draw_secret draw_key insert_user send_mail record_audit
invite_user env inviter_id organization_id inviter_role dto = do
  lift (throw_if (not (may_grant inviter_role dto.role)) (forbidden role_not_grantable))
  read (check_email_free dto.email)
  role ← read (λ db. or_throw (find_role_by_name dto.role db.roles) (not_found role_not_seeded))
  organization ← read (λ db.
      or_throw (find (λ o. o.id) organization_id db.organizations)
        (internal_error constraint_violated))
  inviter ← read (λ db. or_throw (find_user inviter_id db) (internal_error constraint_violated))
  key ← draw_key env
  read (check_key_free key)
  let user : User = invited_user env organization_id dto role.id key
  write (insert_user user)
  token ← draw_secret env
  link ← draw_key env
  write (λ db. record db {
    invite_tokens = db.invite_tokens ++ (new_link env invite_ttl_ms user.id token link ∷ []);
  })
  write (
      send_mail (
        invite_email user.email inviter.first_name inviter.last_name organization.name role.label
          token))
  write (record_audit organization_id inviter_id user_invited user.id)
  lift (ok user)

pub record UpdateMemberDto : Type 0 where
  pub role : Option RoleName
  pub status : Option UserStatus

abbrev pub check_target : ℕ → Option User → Result User
check_target organization_id none = err (not_found user_not_found)
check_target organization_id (some u) =
    if not (u.organization_id == organization_id) then err (not_found user_not_found) else ok u

abbrev pub check_role : RoleName → Option RoleName → Result (Unit {0})
check_role actor none = ok tt
check_role actor (some role) = throw_if (not (may_grant actor role)) (forbidden role_not_grantable)

abbrev pub check_status : Option UserStatus → Result (Unit {0})
check_status none = ok tt
check_status (some status) =
    throw_if (not (any (user_status_eq status) (active ∷ suspended ∷ [])))
      (bad_request status_not_settable)

-- The key of the role that `data.role` connects, if one was asked for.
abbrev pub role_to_connect : Option RoleName → AuthDb → Result (Option ℕ)
role_to_connect none db = ok none
role_to_connect (some name) db = elim (find_role_by_name name db.roles) [
  | none ↦ err (not_found role_not_seeded)
  | some role ↦ ok (some role.id)
]

abbrev pub changed_member : Option ℕ → Option UserStatus → User → User
changed_member role status u = record u {
  role_id = or_default role u.role_id;
  status = or_default status u.status;
}

abbrev pub suspends : Option UserStatus → Bool
suspends none = false
suspends (some status) = user_status_eq status suspended

-- A suspended member's sessions end at once.
unfoldable pub if_suspended : Option UserStatus → ℕ → ℕ → AuthDb → AuthDb
unfolding revoke_sessions
if_suspended status target_id now db =
    if suspends status then revoke_sessions (λ s. s.user_id == target_id) now db else db

-- `updateMember`, before the answer is made of the row.
unfoldable pub update_member : AuthEnv → ℕ → RoleName → ℕ → ℕ → UpdateMemberDto → Action (Unit {0})
unfolding update_user record_audit if_suspended
update_member env actor_id actor_role organization_id target_id dto = do
  lift (throw_if (target_id == actor_id) (forbidden own_membership))
  target ← read (λ db. check_target organization_id (find_user target_id db))
  lift (check_role actor_role dto.role)
  lift (check_status dto.status)
  role ← read (role_to_connect dto.role)
  write (update_user target_id (changed_member role dto.status))
  write (if_suspended dto.status target_id env.now)
  write (record_audit organization_id actor_id user_updated target_id)
