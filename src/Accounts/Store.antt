-- ===== src/Accounts/Store.antt =====
-- The account tables, what a request takes from outside, and handlers as state passing with an
-- exception: what was written before a `throw` stays written.
use sentinel_desk.Prelude.{
  ℕ, suc, Bool, Option, none, List, [], ◌∷◌, ◌++◌, Text, Result, ok, err, find, modify, or_throw,
  throw_if, is_some, internal_error, constraint_violated, text_eq, if◌then◌else◌, some,
}
use sentinel_desk.Schema.{RoleName}
use sentinel_desk.Accounts.Schema.{
  Organization, Role, User, Session, LinkToken, ApiKey, AccountAction, AccountAudit, Mail, role_eq,
}

pub record AuthDb : Type 0 where
  pub organizations : List Organization
  pub roles : List Role
  pub users : List User
  pub sessions : List Session
  pub verification_tokens : List LinkToken
  pub reset_tokens : List LinkToken
  pub invite_tokens : List LinkToken
  pub api_keys : List ApiKey
  pub audit_logs : List AccountAudit
  pub mails : List Mail
  -- how many keys `@default(uuid())`, and how many secrets `randomBytes` has handed out
  pub keys_drawn : ℕ
  pub secrets_drawn : ℕ

-- The payloads of types/jwt-payload.type.ts.
pub record JwtAccessPayload : Type 0 where
  pub sub : ℕ
  pub org_id : ℕ
  pub role : RoleName
  pub permissions : List Text
  pub session_id : ℕ

pub record JwtRefreshPayload : Type 0 where
  pub sub : ℕ
  pub session_id : ℕ

-- `jwt` of config/configuration.ts, less the two secrets, which are inside `sign` and `verify`.
pub record JwtConfig : Type 0 where
  pub access_expires_in : Text
  pub refresh_expires_in : Text
  pub refresh_expires_in_remember_me : Text

-- What a request takes from outside: the clock (read once in a request), the keys that the database
-- draws, `crypto`, `Math.floor(Math.random() * 36)` at each call, `bcrypt` and `@nestjs/jwt`, whose `sign` fails on a lifetime that it cannot
-- read and whose `verify` checks the signature and the lifetime at an instant. `api_key_session` is the number of the text
-- `api-key:${id}`.
pub record AuthEnv : Type 0 where
  pub now : ℕ
  pub uuid : ℕ → ℕ
  pub random_bytes : ℕ → ℕ
  pub random_index : ℕ → ℕ
  pub hash_token : ℕ → ℕ
  pub hash_password : ℕ → ℕ → ℕ
  pub compare_password : ℕ → ℕ → Bool
  pub sign_access : JwtAccessPayload → Text → ℕ → Result ℕ
  pub sign_refresh : JwtRefreshPayload → Text → ℕ → Result ℕ
  pub verify_access : ℕ → ℕ → Option JwtAccessPayload
  pub verify_refresh : ℕ → ℕ → Option JwtRefreshPayload
  pub api_key_session : ℕ → ℕ
  pub jwt : JwtConfig

abbrev pub Action : Type 0 → Type 0
Action A = AuthDb → Result A × AuthDb

abbrev pub after_call : {A B : Type 0} → Result A → (A → Action B) → Action B
after_call (ok a) k db = k a db
after_call (err e) k db = (err e, db)

infixl 5 ◌>>=◌ ◌>>◌
unfoldable pub ◌>>=◌ : {A B : Type 0} → Action A → (A → Action B) → Action B
(m >>= k) db = after_call (m db).0 k (m db).1

abbrev pub ◌>>◌ : {A B : Type 0} → Action A → Action B → Action B
m >> k = m >>= λ _. k

abbrev pub lift : {A : Type 0} → Result A → Action A
lift r db = (r, db)

-- A query, which may throw.
abbrev pub read : {A : Type 0} → (AuthDb → Result A) → Action A
read query db = (query db, db)

abbrev pub write : (AuthDb → AuthDb) → Action (Unit {0})
write f db = (ok tt, f db)

abbrev pub find_user : ℕ → AuthDb → Option User
find_user id db = find (λ u. u.id) id db.users

abbrev pub find_session : ℕ → AuthDb → Option Session
find_session id db = find (λ s. s.id) id db.sessions

abbrev pub find_by_email : ℕ → AuthDb → Option User
find_by_email email db = find (λ u. u.email) email db.users

abbrev pub find_role_by_name : RoleName → List Role → Option Role
find_role_by_name name [] = none
find_role_by_name name (r ∷ rs) =
    let rest = find_role_by_name name rs in if role_eq r.name name then some r else rest

abbrev pub find_by_slug : Text → List Organization → Option Organization
find_by_slug slug [] = none
find_by_slug slug (o ∷ os) =
    let rest = find_by_slug slug os in if text_eq o.slug slug then some o else rest

-- `include: { organization: true, role: true }`; the foreign keys are never dangling.
pub record FullUser : Type 0 where
  pub user : User
  pub role : Role
  pub organization : Organization

abbrev pub organization_of : User → AuthDb → Result Organization
organization_of user db =
    or_throw (find (λ o. o.id) user.organization_id db.organizations)
      (internal_error constraint_violated)

abbrev pub role_of : User → AuthDb → Result Role
role_of user db =
    or_throw (find (λ r. r.id) user.role_id db.roles) (internal_error constraint_violated)

-- A secret of `randomBytes`, and a key of `@default(uuid())`.
unfoldable pub draw_secret : AuthEnv → Action ℕ
draw_secret env db =
    (ok (env.random_bytes db.secrets_drawn), record db { secrets_drawn = suc db.secrets_drawn })

unfoldable pub draw_key : AuthEnv → Action ℕ
draw_key env db = (ok (env.uuid db.keys_drawn), record db { keys_drawn = suc db.keys_drawn })

-- The primary key of the users.
abbrev pub check_key_free : ℕ → AuthDb → Result (Unit {0})
check_key_free key db = throw_if (is_some (find_user key db)) (internal_error constraint_violated)

unfoldable pub insert_user : User → AuthDb → AuthDb
insert_user u db = record db { users = db.users ++ (u ∷ []) }

unfoldable pub update_user : ℕ → (User → User) → AuthDb → AuthDb
update_user id f db = record db { users = modify (λ u. u.id) id f db.users }

unfoldable pub insert_session : Session → AuthDb → AuthDb
insert_session s db = record db { sessions = db.sessions ++ (s ∷ []) }

unfoldable pub update_session : ℕ → (Session → Session) → AuthDb → AuthDb
update_session id f db = record db { sessions = modify (λ s. s.id) id f db.sessions }

-- `AuditService.record`
unfoldable pub record_audit : ℕ → ℕ → AccountAction → ℕ → AuthDb → AuthDb
record_audit organization_id actor action entity_id db = record db {
  audit_logs =
      db.audit_logs
      ++ (record {
        organization_id = organization_id;
        actor_user_id = actor;
        action = action;
        entity_id = entity_id;
      }
          ∷ []);
}

unfoldable pub send_mail : Mail → AuthDb → AuthDb
send_mail mail db = record db { mails = db.mails ++ (mail ∷ []) }
