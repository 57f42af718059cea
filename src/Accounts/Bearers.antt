-- ===== src/Accounts/Bearers.antt =====
-- Whom the guard of authentication lets in (apps/backend/src/common/guards/jwt-auth.guard.ts,
-- apps/backend/src/auth/strategies/jwt.strategy.ts, apps/backend/src/api-keys/api-keys.service.ts).
use sentinel_desk.Prelude.{
  ℕ, true, ◌≡◌, ◌∙◌, ◌≤◌, ap, sym, refl, inl, inr, Option, none, some, List, Result, ok, err, find,
  arith, Result-cases, or_default,
}
use sentinel_desk.Schema.{AuthenticatedUser}
use sentinel_desk.Accounts.Schema.{
  User, Role, Session, ApiKey, UserStatus, active, user_status_eq, pending_verification, invited,
  suspended, deactivated,
}
use sentinel_desk.Accounts.Store.{AuthDb, AuthEnv, find_user, find_session, JwtAccessPayload}
use sentinel_desk.Accounts.Tokens.{get_permissions_for_role}
use sentinel_desk.Accounts.Sessions.{check_session, as_named, as_checked, validate}
use sentinel_desk.Accounts.ApiKeys.{as_creator, use_key, validate_key}
use sentinel_desk.Accounts.Calls.{Call, run_calls}
use sentinel_desk.Accounts.Effects.{is_active}
use sentinel_desk.Accounts.Runs.{IsSettled}
use sentinel_desk.Accounts.Revoked.{validate-is_active, not_ok}
use sentinel_desk.Accounts.Outcomes.{or_throw-some, ok_injective, Yields, Yields-ok, read-Yields}
use sentinel_desk.Accounts.Guards.{known_key, by_token, by_cookie, by_credentials}

-- A request that bears an API key acts for the creator of the stored key, in the key's organization
-- and with the role and the permissions that the creator has now.
pub record BearsKey (auth : AuthEnv) (raw_key : ℕ) (accounts : AuthDb) (user : AuthenticatedUser)
    : Type 0 where
  pub key : ApiKey
  pub stored : find (λ k. k.key_hash) (auth.hash_token raw_key) accounts.api_keys ≡ some key
  pub creator : User
  pub found : find_user key.created_by_id accounts ≡ some creator
  pub id : user.id ≡ creator.id
  pub organization : user.organization_id ≡ key.organization_id
  pub role : Role
  pub found_role : find (λ r. r.id) creator.role_id accounts.roles ≡ some role
  pub role_name : user.role ≡ role.name
  pub permissions : user.permissions ≡ role.permissions

-- A request with the cookie acts for the user that the signed token names, with all that it says;
-- the token's session is the user's, is not revoked and has not expired, and the user is active.
pub record BearsToken (auth : AuthEnv) (token : ℕ) (accounts : AuthDb) (user : AuthenticatedUser)
    : Type 0 where
  pub payload : JwtAccessPayload
  pub verified : auth.verify_access token auth.now ≡ some payload
  pub id : user.id ≡ payload.sub
  pub organization : user.organization_id ≡ payload.org_id
  pub role : user.role ≡ payload.role
  pub permissions : user.permissions ≡ payload.permissions
  pub same_session : user.session_id ≡ payload.session_id
  pub session : Session
  pub found : find_session payload.session_id accounts ≡ some session
  pub owner : session.user_id ≡ user.id
  pub live : session.revoked_at ≡ none
  pub lasting : auth.now ≤ session.expires_at
  pub holder : User
  pub found_holder : find_user user.id accounts ≡ some holder
  pub active : holder.status ≡ active

some_injective : {A : Type 0} {a b : A} → some a ≡ some b → a ≡ b
some_injective {a = a} h = ap (λ o. or_default o a) h

permissions_of-role :
    (role_id : ℕ) (db : AuthDb) (role : Role)
    → find (λ r. r.id) role_id db.roles ≡ some role
    → get_permissions_for_role role_id db ≡ role.permissions
permissions_of-role role_id db role e = rw (e, get_permissions_for_role) refl

as_creator-BearsKey :
    (auth : AuthEnv) (raw_key : ℕ) (key : ApiKey) (accounts now : AuthDb)
    → find (λ k. k.key_hash) (auth.hash_token raw_key) accounts.api_keys ≡ some key
    → now.users ≡ accounts.users
    → now.roles ≡ accounts.roles
    → Yields
        (λ answer _. (u : AuthenticatedUser) → answer ≡ some u → BearsKey auth raw_key accounts u)
        (as_creator auth key now)
as_creator-BearsKey auth raw_key key accounts now stored users roles =
    read-Yields _ _ _ now (λ creator found. read-Yields _ _ _ now (λ role found_role.
      read-Yields _ _ _ now (λ permissions granted. λ u e.
        let here = or_throw-some _ _ creator found in
        let held = or_throw-some _ _ role found_role in
        let bears : BearsKey auth raw_key accounts u = record {
          key = key;
          stored = stored;
          creator = creator;
          found = ap (find (λ u. u.id) key.created_by_id) (sym users) ∙ here;
          id = ap (λ v. v.id) (sym (some_injective e));
          organization = ap (λ v. v.organization_id) (sym (some_injective e));
          role = role;
          found_role = ap (find (λ r. r.id) creator.role_id) (sym roles) ∙ held;
          role_name = ap (λ v. v.role) (sym (some_injective e));
          permissions =
              ap (λ v. v.permissions) (sym (some_injective e))
              ∙ sym (ok_injective granted)
              ∙ permissions_of-role creator.role_id now role held;
        } in
        bears)))

as_named-user :
    (payload : JwtAccessPayload) (s : Session) (user : AuthenticatedUser)
    → as_named payload s ≡ ok user
    → user ≡ record {
      id = payload.sub;
      organization_id = payload.org_id;
      role = payload.role;
      permissions = payload.permissions;
      session_id = payload.session_id;
    }
as_named-user payload s user h = ground arith

known_key-ok :
    (r : Result (Option AuthenticatedUser)) (user : AuthenticatedUser)
    → known_key r ≡ ok user
    → r ≡ ok (some user)
known_key-ok (err e) user h = cc
known_key-ok (ok none) user h = cc
known_key-ok (ok (some u)) user h = ap (λ v. ok (some v)) (ok_injective h)

is_active-status : (status : UserStatus) → user_status_eq status active ≡ true → status ≡ active
is_active-status active h = refl
is_active-status pending_verification h = cc
is_active-status invited h = cc
is_active-status suspended h = cc
is_active-status deactivated h = cc

validate-user :
    (auth : AuthEnv) (payload : JwtAccessPayload) (db : AuthDb) (user : AuthenticatedUser)
    → validate auth payload db ≡ ok user
    → user ≡ record {
      id = payload.sub;
      organization_id = payload.org_id;
      role = payload.role;
      permissions = payload.permissions;
      session_id = payload.session_id;
    }
unfolding validate
validate-user auth payload db user h =
    elim (Result-cases (check_session auth.now (find_session payload.session_id db))) [
      | inl (e, failed) ↦ absurd (not_ok (ap (as_checked payload) (sym failed) ∙ h))
      | inr (s, passed) ↦ as_named-user payload s user (ap (as_checked payload) (sym passed) ∙ h)
    ]

use_key-BearsKey :
    (auth : AuthEnv) (raw_key : ℕ) (found : Option ApiKey) (accounts : AuthDb)
    (user : AuthenticatedUser)
    → find (λ k. k.key_hash) (auth.hash_token raw_key) accounts.api_keys ≡ found
    → known_key (use_key auth found accounts).0 ≡ ok user
    → BearsKey auth raw_key accounts user
use_key-BearsKey auth raw_key none accounts user stored h = cc
use_key-BearsKey auth raw_key (some key) accounts user stored h =
    Yields-ok
      (λ answer _. (u : AuthenticatedUser) → answer ≡ some u → BearsKey auth raw_key accounts u)
      (use_key auth (some key) accounts).0 (use_key auth (some key) accounts).1 (some user)
      (as_creator-BearsKey auth raw_key key accounts _ stored refl refl) (known_key-ok _ user h)
      user refl

active_one :
    (o : Option User) → is_active o ≡ true → (u : User) × (o ≡ some u) × (u.status ≡ active)
active_one none h = cc
active_one (some u) h = (u, refl, is_active-status u.status h)

by_token-BearsToken :
    (calls : List (AuthEnv × Call)) (auth : AuthEnv) (token : ℕ) (o : Option JwtAccessPayload)
    (accounts : AuthDb) (user : AuthenticatedUser)
    → IsSettled accounts
    → auth.verify_access token auth.now ≡ o
    → by_token auth (run_calls calls accounts) o ≡ ok user
    → BearsToken auth token (run_calls calls accounts) user
by_token-BearsToken calls auth token none accounts user settled verified h = cc
by_token-BearsToken calls auth token (some payload) accounts user settled verified h =
    let (s, found, owner, live, lasting, alive) =
      validate-is_active calls accounts auth payload user settled h in
    let (holder, held, is_on) = active_one _ alive in
    let same = validate-user auth payload (run_calls calls accounts) user h in
    record {
      payload = payload;
      verified = verified;
      id = ap (λ v. v.id) same;
      organization = ap (λ v. v.organization_id) same;
      role = ap (λ v. v.role) same;
      permissions = ap (λ v. v.permissions) same;
      same_session = ap (λ v. v.session_id) same;
      session = s;
      found = found;
      owner = owner;
      live = live;
      lasting = ground arith;
      holder = holder;
      found_holder = held;
      active = is_on;
    }

by_cookie-BearsToken :
    (calls : List (AuthEnv × Call)) (auth : AuthEnv) (cookie : Option ℕ) (accounts : AuthDb)
    (user : AuthenticatedUser)
    → IsSettled accounts
    → by_cookie auth cookie (run_calls calls accounts) ≡ ok user
    → (token : ℕ) × (cookie ≡ some token) × BearsToken auth token (run_calls calls accounts) user
by_cookie-BearsToken calls auth none accounts user settled h = cc
by_cookie-BearsToken calls auth (some token) accounts user settled h =
    (token, refl, by_token-BearsToken calls auth token _ accounts user settled refl h)

-- Whom the first guard lets in: the bearer of an API key, else the bearer of an access token.
abbrev pub IsAuthentic : AuthEnv → Option ℕ → Option ℕ → AuthDb → AuthenticatedUser → Type 0
IsAuthentic auth (some raw_key) cookie accounts user = BearsKey auth raw_key accounts user
IsAuthentic auth none cookie accounts user =
    (token : ℕ) × (cookie ≡ some token) × BearsToken auth token accounts user

pub by_credentials-IsAuthentic :
    (calls : List (AuthEnv × Call)) (auth : AuthEnv) (bearer cookie : Option ℕ) (accounts : AuthDb)
    (user : AuthenticatedUser)
    → IsSettled accounts
    → (by_credentials auth bearer cookie (run_calls calls accounts)).0 ≡ ok user
    → IsAuthentic auth bearer cookie (run_calls calls accounts) user
unfolding validate_key
by_credentials-IsAuthentic calls auth (some raw_key) cookie accounts user settled h =
    use_key-BearsKey auth raw_key _ (run_calls calls accounts) user refl h
by_credentials-IsAuthentic calls auth none cookie accounts user settled h =
    by_cookie-BearsToken calls auth cookie accounts user settled h
