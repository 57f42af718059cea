-- ===== src/Accounts/Tokens.antt =====
-- Token pairs and the sessions that they belong to (apps/backend/src/auth/auth.service.ts:
-- getPermissionsForRole, signTokenPair, issueSession, rotateSession, toSafeUser).
use sentinel_desk.Prelude.{
  ℕ, Bool, ◌&&◌, Option, none, some, List, [], ◌∷◌, Text, ok, find, is_none, if◌then◌else◌,
}
use sentinel_desk.Schema.{RoleName}
use sentinel_desk.Helpers.Duration.{add_duration}
use sentinel_desk.Accounts.Schema.{Organization, Session}
use sentinel_desk.Accounts.Store.{
  AuthDb, AuthEnv, Action, ◌>>=◌, ◌>>◌, lift, read, write, FullUser, draw_secret, draw_key,
  insert_session, update_session, JwtConfig,
}

pub record RequestMeta : Type 0 where
  pub ip : Option ℕ
  pub user_agent : Option Text

pub record SafeUser : Type 0 where
  pub id : ℕ
  pub email : ℕ
  pub first_name : Text
  pub last_name : Text
  pub avatar_url : Option Text
  pub role : RoleName
  pub organization_id : ℕ
  pub organization : Organization

pub record TokenPair : Type 0 where
  pub access_token : ℕ
  pub refresh_token : ℕ

pub record AuthTokenResult : Type 0 where
  pub access_token : ℕ
  pub refresh_token : ℕ
  pub csrf_token : ℕ
  pub access_token_expires_at : ℕ
  pub refresh_token_expires_at : ℕ
  pub user : SafeUser

-- `toSafeUser`
abbrev pub to_safe_user : FullUser → SafeUser
to_safe_user full = record {
  id = full.user.id;
  email = full.user.email;
  first_name = full.user.first_name;
  last_name = full.user.last_name;
  avatar_url = full.user.avatar_url;
  role = full.role.name;
  organization_id = full.user.organization_id;
  organization = full.organization;
}

-- `getPermissionsForRole`
abbrev pub get_permissions_for_role : ℕ → AuthDb → List Text
get_permissions_for_role role_id db = elim (find (λ r. r.id) role_id db.roles) [
  | none ↦ []
  | some r ↦ r.permissions
]

-- `signTokenPair`
unfoldable pub sign_token_pair : AuthEnv → FullUser → ℕ → Text → Action TokenPair
sign_token_pair env full session_id refresh_ttl = do
  permissions ← read (λ db. ok (get_permissions_for_role full.user.role_id db))
  access_token ← lift (
      env.sign_access
        (record {
          sub = full.user.id;
          org_id = full.user.organization_id;
          role = full.role.name;
          permissions = permissions;
          session_id = session_id;
        })
        env.jwt.access_expires_in env.now)
  refresh_token ← lift (
      env.sign_refresh (record { sub = full.user.id; session_id = session_id }) refresh_ttl env.now)
  lift (ok (record { access_token = access_token; refresh_token = refresh_token }))

abbrev pub refresh_ttl : JwtConfig → Bool → Text
refresh_ttl jwt remember_me =
    if remember_me then jwt.refresh_expires_in_remember_me else jwt.refresh_expires_in

-- The row that `issueSession` creates, with a placeholder for the hash.
abbrev pub new_session : AuthEnv → RequestMeta → Bool → ℕ → ℕ → ℕ → ℕ → Session
new_session env meta remember_me user_id key placeholder expires = record {
  id = key;
  user_id = user_id;
  refresh_token_hash = placeholder;
  user_agent = meta.user_agent;
  ip_address = meta.ip;
  is_remember_me = remember_me;
  last_used_at = env.now;
  expires_at = expires;
  revoked_at = none;
  created_at = env.now;
}

-- What both end with: a CSRF token, the expiry of the access token, the answer.
unfoldable pub hand_out : AuthEnv → FullUser → TokenPair → ℕ → Action AuthTokenResult
unfolding draw_secret add_duration
hand_out env full pair expires = do
  csrf_token ← draw_secret env
  access_expires ← lift (add_duration env.now env.jwt.access_expires_in)
  lift (
      ok (record {
        access_token = pair.access_token;
        refresh_token = pair.refresh_token;
        csrf_token = csrf_token;
        access_token_expires_at = access_expires;
        refresh_token_expires_at = expires;
        user = to_safe_user full;
      }))

-- `issueSession`
unfoldable pub issue_session : AuthEnv → FullUser → RequestMeta → Bool → Action AuthTokenResult
unfolding draw_secret draw_key sign_token_pair insert_session update_session add_duration hand_out
issue_session env full meta remember_me = do
  expires ← lift (add_duration env.now (refresh_ttl env.jwt remember_me))
  placeholder ← draw_secret env
  key ← draw_key env
  write (insert_session (new_session env meta remember_me full.user.id key placeholder expires))
  pair ← sign_token_pair env full key (refresh_ttl env.jwt remember_me)
  write (
      update_session key (λ s. record s { refresh_token_hash = env.hash_token pair.refresh_token }))
  hand_out env full pair expires

abbrev pub rotated_session : AuthEnv → RequestMeta → TokenPair → ℕ → Session → Session
rotated_session env meta pair expires s = record s {
  refresh_token_hash = env.hash_token pair.refresh_token;
  last_used_at = env.now;
  expires_at = expires;
  user_agent = elim meta.user_agent [ none ↦ s.user_agent | some a ↦ some a ];
  ip_address = elim meta.ip [ none ↦ s.ip_address | some a ↦ some a ];
}

-- `rotateSession`
unfoldable pub rotate_session : AuthEnv → ℕ → FullUser → RequestMeta → Bool → Action AuthTokenResult
unfolding sign_token_pair update_session add_duration hand_out
rotate_session env session_id full meta remember_me = do
  expires ← lift (add_duration env.now (refresh_ttl env.jwt remember_me))
  pair ← sign_token_pair env full session_id (refresh_ttl env.jwt remember_me)
  write (update_session session_id (rotated_session env meta pair expires))
  hand_out env full pair expires

-- `session.updateMany({ where: { ..., revokedAt: null }, data: { revokedAt: new Date() } })`
abbrev pub revoke_matching : (Session → Bool) → ℕ → List Session → List Session
revoke_matching p now [] = []
revoke_matching p now (s ∷ ss) =
    let rest = revoke_matching p now ss in
    if p s && is_none s.revoked_at then record s { revoked_at = some now } ∷ rest else s ∷ rest

unfoldable pub revoke_sessions : (Session → Bool) → ℕ → AuthDb → AuthDb
revoke_sessions p now db = record db { sessions = revoke_matching p now db.sessions }
