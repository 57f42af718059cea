-- ===== src/Accounts/Sessions.antt =====
-- Login, refresh, logout and the check on every request (apps/backend/src/auth/auth.service.ts: login,
-- refresh, logout, logoutAllOtherSessions, listSessions, revokeSession; auth/strategies/jwt.strategy.ts).
use sentinel_desk.Prelude.{
  ℕ, Bool, not, ◌&&◌, ◌||◌, Option, none, some, List, Result, ok, err, ltb, length, or_throw,
  is_some, is_none, unauthorized, forbidden, bad_credentials, unverified, not_yet_accepted,
  inactive, bad_refresh_token, session_over, session_mismatch, token_reused, foreign_session, ◌==◌,
  if◌then◌else◌, select,
}
use sentinel_desk.Schema.{AuthenticatedUser}
use sentinel_desk.Accounts.Schema.{
  User, UserStatus, pending_verification, invited, active, suspended, deactivated, Session,
  auth_login,
}
use sentinel_desk.Accounts.Store.{
  AuthDb, AuthEnv, Action, ◌>>=◌, ◌>>◌, lift, read, write, find_user, find_session, find_by_email,
  update_user, update_session, record_audit, organization_of, role_of, JwtAccessPayload,
}
use sentinel_desk.Accounts.Tokens.{
  RequestMeta, AuthTokenResult, issue_session, rotate_session, revoke_sessions,
}

pub record LoginDto : Type 0 where
  pub email : ℕ
  pub password : ℕ
  pub remember_me : Bool

-- The answers of `login` to the states of an account that has the right password.
abbrev pub may_log_in : UserStatus → Result (Unit {0})
may_log_in pending_verification = err (forbidden unverified)
may_log_in invited = err (forbidden not_yet_accepted)
may_log_in suspended = err (forbidden inactive)
may_log_in deactivated = err (forbidden inactive)
may_log_in active = ok tt

abbrev pub check_password : AuthEnv → ℕ → Option User → Result User
check_password env password none = err (unauthorized bad_credentials)
check_password env password (some user) = elim user.password_hash [
  | none ↦ err (unauthorized bad_credentials)
  | some hash ↦
      if env.compare_password password hash then ok user else err (unauthorized bad_credentials)
]

abbrev pub logged_in_at : ℕ → User → User
logged_in_at now u = record u { last_login_at = some now }

-- `login`
unfoldable pub login : AuthEnv → LoginDto → RequestMeta → Action AuthTokenResult
unfolding update_user record_audit issue_session
login env dto meta = do
  user ← read (λ db. check_password env dto.password (find_by_email dto.email db))
  role ← read (role_of user)
  organization ← read (organization_of user)
  lift (may_log_in user.status)
  write (update_user user.id (logged_in_at env.now))
  result ←
      issue_session env (record { user = user; role = role; organization = organization }) meta
        dto.remember_me
  write (record_audit user.organization_id user.id auth_login user.id)
  lift (ok result)

-- `!session || session.revokedAt || session.expiresAt < new Date()`
abbrev pub check_session : ℕ → Option Session → Result Session
check_session now none = err (unauthorized session_over)
check_session now (some s) =
    if is_some s.revoked_at || ltb s.expires_at now then err (unauthorized session_over) else ok s

abbrev pub may_refresh : UserStatus → Result (Unit {0})
may_refresh suspended = err (unauthorized inactive)
may_refresh deactivated = err (unauthorized inactive)
may_refresh _ = ok tt

-- A token that was rotated out ends the session.
abbrev pub check_reuse : AuthEnv → ℕ → Session → Action (Unit {0})
check_reuse env refresh_token s db =
    if env.hash_token refresh_token == s.refresh_token_hash then (ok tt, db) else (
      err (unauthorized token_reused),
      update_session s.id (λ s. record s { revoked_at = some env.now }) db,
    )

-- `refresh`
unfoldable pub refresh : AuthEnv → ℕ → RequestMeta → Action AuthTokenResult
unfolding update_session rotate_session
refresh env refresh_token meta = do
  payload ←
      lift (or_throw (env.verify_refresh refresh_token env.now) (unauthorized bad_refresh_token))
  s ← read (λ db. check_session env.now (find_session payload.session_id db))
  check_reuse env refresh_token s
  user ← read (λ db. or_throw (find_user s.user_id db) (unauthorized inactive))
  role ← read (role_of user)
  organization ← read (organization_of user)
  lift (may_refresh user.status)
  rotate_session env s.id (record { user = user; role = role; organization = organization }) meta
      s.is_remember_me

-- `logout`
unfoldable pub logout : AuthEnv → ℕ → Action (Unit {0})
unfolding revoke_sessions
logout env session_id = write (revoke_sessions (λ s. s.id == session_id) env.now)

abbrev pub is_other_session : ℕ → ℕ → Session → Bool
is_other_session user_id current s = s.user_id == user_id && not (s.id == current)

-- `logoutAllOtherSessions`
unfoldable pub logout_all_other_sessions : AuthEnv → ℕ → ℕ → Action ℕ
unfolding revoke_sessions
logout_all_other_sessions env user_id current db = (
  ok (
      length
        (select (λ s. is_other_session user_id current s && is_none s.revoked_at) db.sessions)),
  revoke_sessions (is_other_session user_id current) env.now db,
)

-- `listSessions`, before the rows are sorted and described.
unfoldable pub list_sessions : AuthEnv → ℕ → AuthDb → List Session
list_sessions env user_id db =
    select (λ s. s.user_id == user_id && is_none s.revoked_at && ltb env.now s.expires_at)
      db.sessions

abbrev pub check_own_session : ℕ → Option Session → Result Session
check_own_session user_id none = err (forbidden foreign_session)
check_own_session user_id (some s) =
    if not (s.user_id == user_id) then err (forbidden foreign_session) else ok s

-- `revokeSession`
unfoldable pub revoke_session : AuthEnv → ℕ → ℕ → Action (Unit {0})
unfolding update_session
revoke_session env user_id session_id = do
  read (λ db. check_own_session user_id (find_session session_id db))
  write (update_session session_id (λ s. record s { revoked_at = some env.now }))

-- The user that the payload names, if the session is his.
abbrev pub as_named : JwtAccessPayload → Session → Result AuthenticatedUser
as_named payload s =
    if not (s.user_id == payload.sub)
    then err (unauthorized session_mismatch)
    else ok (record {
      id = payload.sub;
      organization_id = payload.org_id;
      role = payload.role;
      permissions = payload.permissions;
      session_id = payload.session_id;
    })

abbrev pub as_checked : JwtAccessPayload → Result Session → Result AuthenticatedUser
as_checked payload (err e) = err e
as_checked payload (ok s) = as_named payload s

-- `JwtStrategy.validate`
unfoldable pub validate : AuthEnv → JwtAccessPayload → AuthDb → Result AuthenticatedUser
validate env payload db =
    as_checked payload (check_session env.now (find_session payload.session_id db))
