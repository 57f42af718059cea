-- ===== src/Accounts/Links.antt =====
-- Secrets in mails: verification, password reset, invitation (apps/backend/src/auth/auth.service.ts:
-- issueEmailVerification, verifyEmail, resendVerification, forgotPassword, resetPassword, acceptInvite).
use sentinel_desk.Prelude.{
  ℕ, ◌+◌, false, not, ◌||◌, Option, none, some, List, [], ◌∷◌, ◌++◌, Result, ok, err, find, modify,
  ltb, or_throw, is_some, unauthorized, internal_error, constraint_violated, link_invalid, ◌==◌,
  if◌then◌else◌,
}
use sentinel_desk.Accounts.Schema.{
  User, LinkToken, user_status_eq, pending_verification, active, auth_email_verified,
  auth_password_reset, auth_invite_accepted, verification_email, password_reset_email,
}
use sentinel_desk.Accounts.Store.{
  AuthDb, AuthEnv, Action, ◌>>=◌, ◌>>◌, read, write, draw_secret, draw_key, find_user,
  find_by_email, update_user, record_audit, send_mail, organization_of, role_of,
}
use sentinel_desk.Accounts.Tokens.{RequestMeta, AuthTokenResult, issue_session, revoke_sessions}

abbrev pub password_reset_ttl_ms : ℕ
password_reset_ttl_ms = 3600000

abbrev pub email_verification_ttl_ms : ℕ
email_verification_ttl_ms = 86400000

abbrev pub new_link : AuthEnv → ℕ → ℕ → ℕ → ℕ → LinkToken
new_link env ttl user_id token key = record {
  id = key;
  user_id = user_id;
  token_hash = env.hash_token token;
  expires_at = env.now + ttl;
  consumed_at = none;
}

-- `if (!record || record.consumedAt || record.expiresAt < new Date()) throw ...`
abbrev pub check_link : ℕ → Option LinkToken → Result LinkToken
check_link now none = err (unauthorized link_invalid)
check_link now (some link) =
    if is_some link.consumed_at || ltb link.expires_at now
    then err (unauthorized link_invalid)
    else ok link

abbrev pub usable_link : AuthEnv → ℕ → List LinkToken → Result LinkToken
usable_link env token links =
    check_link env.now (find (λ l. l.token_hash) (env.hash_token token) links)

abbrev pub consume : ℕ → ℕ → List LinkToken → List LinkToken
consume now id = modify (λ l. l.id) id (λ l. record l { consumed_at = some now })

-- `issueEmailVerification`
unfoldable pub issue_email_verification : AuthEnv → User → Action (Unit {0})
unfolding draw_secret draw_key send_mail
issue_email_verification env user = do
  token ← draw_secret env
  key ← draw_key env
  write (λ db. record db {
    verification_tokens =
        db.verification_tokens ++ (new_link env email_verification_ttl_ms user.id token key ∷ []);
  })
  write (send_mail (verification_email user.email user.first_name token))

-- A user whom a token belongs to: the foreign key is never dangling.
abbrev pub owner_of : LinkToken → AuthDb → Result User
owner_of link db = or_throw (find_user link.user_id db) (internal_error constraint_violated)

-- `verifyEmail`
unfoldable pub verify_email : AuthEnv → ℕ → Action (Unit {0})
unfolding update_user record_audit
verify_email env token = do
  link ← read (λ db. usable_link env token db.verification_tokens)
  user ← read (owner_of link)
  write (λ db. record db { verification_tokens = consume env.now link.id db.verification_tokens })
  write (update_user link.user_id (λ u. record u { status = active }))
  write (record_audit user.organization_id link.user_id auth_email_verified link.user_id)

-- `resendVerification`: the answer is the same message whatever was found.
unfoldable pub resend_verification : AuthEnv → ℕ → Action (Unit {0})
unfolding issue_email_verification
resend_verification env email db = elim (find_by_email email db) [
  | none ↦ (ok tt, db)
  | some user ↦
      if not (user_status_eq user.status pending_verification)
      then (ok tt, db)
      else issue_email_verification env user db
]

abbrev pub issue_password_reset : AuthEnv → User → Action (Unit {0})
issue_password_reset env user = do
  token ← draw_secret env
  key ← draw_key env
  write (λ db. record db {
    reset_tokens = db.reset_tokens ++ (new_link env password_reset_ttl_ms user.id token key ∷ []);
  })
  write (send_mail (password_reset_email user.email user.first_name token))

-- `forgotPassword`
unfoldable pub forgot_password : AuthEnv → ℕ → Action (Unit {0})
unfolding draw_secret draw_key send_mail
forgot_password env email db = elim (find_by_email email db) [
  | none ↦ (ok tt, db)
  | some user ↦ issue_password_reset env user db
]

-- `resetPassword`
unfoldable pub reset_password : AuthEnv → ℕ → ℕ → Action (Unit {0})
unfolding update_user revoke_sessions record_audit draw_secret
reset_password env token password = do
  link ← read (λ db. usable_link env token db.reset_tokens)
  salt ← draw_secret env
  user ← read (owner_of link)
  write (λ db. record db { reset_tokens = consume env.now link.id db.reset_tokens })
  write (
      update_user link.user_id
        (λ u. record u { password_hash = some (env.hash_password password salt) }))
  write (revoke_sessions (λ s. s.user_id == link.user_id) env.now)
  write (record_audit user.organization_id link.user_id auth_password_reset link.user_id)

abbrev pub activated : ℕ → User → User
activated hash u = record u { password_hash = some hash; status = active }

-- `acceptInvite`
unfoldable pub accept_invite : AuthEnv → ℕ → ℕ → RequestMeta → Action AuthTokenResult
unfolding update_user record_audit draw_secret issue_session
accept_invite env token password meta = do
  link ← read (λ db. usable_link env token db.invite_tokens)
  salt ← draw_secret env
  before ← read (owner_of link)
  role ← read (role_of before)
  organization ← read (organization_of before)
  let user : User = activated (env.hash_password password salt) before
  write (λ db. record db { invite_tokens = consume env.now link.id db.invite_tokens })
  write (update_user link.user_id (activated (env.hash_password password salt)))
  write (record_audit user.organization_id user.id auth_invite_accepted user.id)
  issue_session env (record { user = user; role = role; organization = organization }) meta false
