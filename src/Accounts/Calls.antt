-- ===== src/Accounts/Calls.antt =====
-- The calls that change accounts, and runs of them (apps/backend/src/auth/auth.controller.ts,
-- apps/backend/src/users/users.controller.ts, apps/backend/src/api-keys/api-keys.controller.ts).
use sentinel_desk.Prelude.{ℕ, List, [], ◌∷◌, Text}
use sentinel_desk.Schema.{AuthenticatedUser}
use sentinel_desk.Accounts.Store.{AuthDb, AuthEnv}
use sentinel_desk.Accounts.Tokens.{RequestMeta}
use sentinel_desk.Accounts.Links.{
  verify_email, resend_verification, forgot_password, reset_password, accept_invite,
}
use sentinel_desk.Accounts.Sessions.{
  LoginDto, login, refresh, logout, logout_all_other_sessions, revoke_session,
}
use sentinel_desk.Accounts.Signup.{SignupDto, SignupCustomerDto, signup, signup_customer}
use sentinel_desk.Accounts.Members.{
  UpdateProfileDto, update_profile, InviteUserDto, invite_user, UpdateMemberDto, update_member,
}
use sentinel_desk.Accounts.ApiKeys.{create_key, remove_key, validate_key}

-- A signed-in user's calls carry the user that the guard found.
pub data Call : Type 0 where
  signs_up : ℕ → SignupDto → Call
  signs_up_customer : SignupCustomerDto → Call
  accepts_invite : ℕ → ℕ → RequestMeta → Call
  logs_in : LoginDto → RequestMeta → Call
  refreshes : ℕ → RequestMeta → Call
  verifies_email resends_verification forgets_password : ℕ → Call
  resets_password : ℕ → ℕ → Call
  logs_out logs_out_others : AuthenticatedUser → Call
  revokes_session : AuthenticatedUser → ℕ → Call
  updates_profile : AuthenticatedUser → UpdateProfileDto → Call
  invites : AuthenticatedUser → InviteUserDto → Call
  updates_member : AuthenticatedUser → ℕ → UpdateMemberDto → Call
  creates_key : AuthenticatedUser → Text → Call
  removes_key : AuthenticatedUser → ℕ → Call
  presents_key : ℕ → Call

unfoldable pub perform : AuthEnv → Call → AuthDb → AuthDb
perform env (signs_up rounds dto) db = (signup env rounds dto db).1
perform env (signs_up_customer dto) db = (signup_customer env dto db).1
perform env (accepts_invite token password meta) db = (accept_invite env token password meta db).1
perform env (logs_in dto meta) db = (login env dto meta db).1
perform env (refreshes token meta) db = (refresh env token meta db).1
perform env (verifies_email token) db = (verify_email env token db).1
perform env (resends_verification email) db = (resend_verification env email db).1
perform env (forgets_password email) db = (forgot_password env email db).1
perform env (resets_password token password) db = (reset_password env token password db).1
perform env (logs_out user) db = (logout env user.session_id db).1
perform env (logs_out_others user) db = (logout_all_other_sessions env user.id user.session_id db).1
perform env (revokes_session user id) db = (revoke_session env user.id id db).1
perform env (updates_profile user dto) db = (update_profile env user.id dto db).1
perform env (invites user dto) db =
    (invite_user env user.id user.organization_id user.role dto db).1
perform env (updates_member user target dto) db =
    (update_member env user.id user.role user.organization_id target dto db).1
perform env (creates_key user name) db = (create_key env user name db).1
perform env (removes_key user id) db = (remove_key user id db).1
perform env (presents_key raw_key) db = (validate_key env raw_key db).1

-- Calls one after another, each at its own instant.
unfoldable pub run_calls : List (AuthEnv × Call) → AuthDb → AuthDb
unfolding perform
run_calls [] db = db
run_calls ((env, call) ∷ rest) db = run_calls rest (perform env call db)
