-- ===== src/Accounts/Effects/Calls.antt =====
-- Every call that changes accounts, as an effect (apps/backend/src/auth/auth.service.ts,
-- apps/backend/src/users/users.service.ts, apps/backend/src/api-keys/api-keys.service.ts).
use sentinel_desk.Prelude.{
  ◌==◌, ℕ, true, false, ◌≡◌, ◌∙◌, ap, refl, inl, inr, some, ok, find, find-key, arith, Bool-cases,
  Option-cases, find-modify_self, find-found, modify,
}
use mathlib.Core.Option
use sentinel_desk.Accounts.Schema.{
  Session, User, UserStatus, invited, suspended, deactivated, active, user_status_eq, LinkToken,
  pending_verification,
}
use sentinel_desk.Accounts.Store.{
  AuthDb, AuthEnv, find_user, find_by_email, update_user, update_session, record_audit, send_mail,
  write,
}
use sentinel_desk.Accounts.Tokens.{RequestMeta, revoke_sessions}
use sentinel_desk.Accounts.Links.{
  issue_email_verification, issue_password_reset, verify_email, resend_verification,
  forgot_password, reset_password, accept_invite, activated, owner_of,
}
use sentinel_desk.Accounts.Sessions.{
  LoginDto, login, refresh, logout, logout_all_other_sessions, revoke_session, check_reuse,
  may_log_in, logged_in_at, check_password, is_other_session,
}
use sentinel_desk.Accounts.Effects.{
  is_active, IsKeyed, KeepsSession, KeepsActive, Effect, quiet, session_written, sessions_revoked,
  user_written, same, HasEffect, bind-Effect, bind-HasEffect, read-Effect, read-HasEffect,
  lift-HasEffect,
}
use sentinel_desk.Accounts.Effects.Tokens.{
  draw_secret-HasEffect, draw_key-HasEffect, issue_session-Effect, rotate_session-HasEffect,
}

write_quiet :
    (f : AuthDb → AuthDb)
    → ((db : AuthDb) → ((f db).users ≡ db.users) × ((f db).sessions ≡ db.sessions))
    → HasEffect (write f)
write_quiet f h db = quiet (h db).0 (h db).1

-- The columns of an account that decide whether it is active stay, or the account becomes active.
pub update_user-HasEffect :
    (id : ℕ) (f : User → User) → KeepsActive f → HasEffect (write (update_user id f))
unfolding update_user
update_user-HasEffect id f keeps db = user_written id f keeps refl refl

pub becomes_active :
    {f : User → User} → ((u : User) → ((f u).id ≡ u.id) × ((f u).status ≡ active)) → KeepsActive f
becomes_active h = record {
  same_id = λ u. (h u).0;
  still_active = λ u _. ap (λ s. user_status_eq s active) (h u).1;
}

pub keeps_status :
    {f : User → User} → ((u : User) → ((f u).id ≡ u.id) × ((f u).status ≡ u.status)) → KeepsActive f
keeps_status h = record {
  same_id = λ u. (h u).0;
  still_active = λ u live. ap (λ s. user_status_eq s active) (h u).1 ∙ live;
}

pub issue_email_verification-HasEffect :
    (env : AuthEnv) (user : User) → HasEffect (issue_email_verification env user)
unfolding issue_email_verification send_mail
issue_email_verification-HasEffect env user =
    bind-HasEffect _ _ (draw_secret-HasEffect env) (λ token.
      bind-HasEffect _ _ (draw_key-HasEffect env)
        (λ key. bind-HasEffect _ _ (λ db. quiet refl refl) (λ _ db. quiet refl refl)))

pub verify_email-HasEffect : (env : AuthEnv) (token : ℕ) → HasEffect (verify_email env token)
unfolding verify_email record_audit
verify_email-HasEffect env token = read-HasEffect _ _ (λ link db _.
    read-HasEffect _ _
      (λ user db _.
        bind-HasEffect _ _ (λ db. quiet refl refl)
          (λ _.
            bind-HasEffect _ _ (update_user-HasEffect _ _ (becomes_active (λ u. (refl, refl))))
              (λ _ db. quiet refl refl))
          db)
      db)

pub logout-HasEffect : (env : AuthEnv) (id : ℕ) → HasEffect (logout env id)
unfolding logout revoke_sessions
logout-HasEffect env id db = sessions_revoked _ env.now refl refl

pub logout_all_other_sessions-HasEffect :
    (env : AuthEnv) (user_id current : ℕ)
    → HasEffect (logout_all_other_sessions env user_id current)
unfolding logout_all_other_sessions revoke_sessions
logout_all_other_sessions-HasEffect env user_id current db =
    sessions_revoked (is_other_session user_id current) env.now refl refl

revoked_keeps : (now : ℕ) → KeepsSession (λ s. record s { revoked_at = some now })
revoked_keeps now = record {
  same_id = λ s. refl;
  same_owner = λ s. refl;
  still_revoked = λ s h. refl;
}

pub revoke_session-HasEffect :
    (env : AuthEnv) (user_id id : ℕ) → HasEffect (revoke_session env user_id id)
unfolding revoke_session update_session
revoke_session-HasEffect env user_id id =
    read-HasEffect _ _ (λ s db _. session_written id _ (revoked_keeps env.now) refl refl)

pub resend_verification-HasEffect :
    (env : AuthEnv) (email : ℕ) → HasEffect (resend_verification env email)
unfolding resend_verification
resend_verification-HasEffect env email db = elim (Option-cases (find_by_email email db)) [
  | inl e ↦ rw (e, resend_verification) same
  | inr (user, e) ↦ elim (Bool-cases (user_status_eq user.status pending_verification)) [
    | inl waiting ↦
        rw (e, waiting, resend_verification) (issue_email_verification-HasEffect env user db)
    | inr other ↦ rw (e, other, resend_verification) same
  ]
]

issue_password_reset-HasEffect :
    (env : AuthEnv) (user : User) → HasEffect (issue_password_reset env user)
unfolding send_mail
issue_password_reset-HasEffect env user = bind-HasEffect _ _ (draw_secret-HasEffect env) (λ token.
    bind-HasEffect _ _ (draw_key-HasEffect env)
      (λ key. bind-HasEffect _ _ (λ db. quiet refl refl) (λ _ db. quiet refl refl)))

pub forgot_password-HasEffect : (env : AuthEnv) (email : ℕ) → HasEffect (forgot_password env email)
unfolding forgot_password
forgot_password-HasEffect env email db = elim (Option-cases (find_by_email email db)) [
  | inl e ↦ rw (e, forgot_password) same
  | inr (user, e) ↦ rw (e, forgot_password) (issue_password_reset-HasEffect env user db)
]

pub reset_password-HasEffect :
    (env : AuthEnv) (token password : ℕ) → HasEffect (reset_password env token password)
unfolding reset_password record_audit revoke_sessions
reset_password-HasEffect env token password = read-HasEffect _ _ (λ link db _.
    bind-HasEffect _ _ (draw_secret-HasEffect env)
      (λ salt. read-HasEffect _ _ (λ user db _.
        bind-HasEffect _ _ (λ db. quiet refl refl)
          (λ _.
            bind-HasEffect _ _ (update_user-HasEffect _ _ (keeps_status (λ u. (refl, refl)))) (λ _.
              bind-HasEffect _ _ (λ db. sessions_revoked _ env.now refl refl)
                (λ _ db. quiet refl refl)))
          db))
      db)

owner_of-found :
    (link : LinkToken) (db : AuthDb) (u : User)
    → owner_of link db ≡ ok u
    → (find_user link.user_id db ≡ some u) × (u.id ≡ link.user_id)
owner_of-found link db u h = elim (Option-cases (find_user link.user_id db)) [
  | inl e ↦ ground arith
  | inr (v, e) ↦ ground (arith, find-key (λ u. u.id) link.user_id db.users {a = v})
]

-- Whom an invitation is accepted for is active.
activated_live :
    (link : LinkToken) (before : User) (db : AuthDb) (hash : ℕ)
    → owner_of link db ≡ ok before
    → is_active
        (find (λ u. u.id) before.id (modify (λ u. u.id) link.user_id (activated hash) db.users))
      ≡ true
activated_live link before db hash found =
    let (there, key) = owner_of-found link db before found in
    rw key (
      ap is_active (
        find-modify_self (λ u. u.id) link.user_id (activated hash) db.users (λ u. refl)
        ∙ ap (Option.map (activated hash)) there))

pub accept_invite-HasEffect :
    (env : AuthEnv) (token password : ℕ) (meta : RequestMeta)
    → HasEffect (accept_invite env token password meta)
unfolding accept_invite record_audit update_user
accept_invite-HasEffect env token password meta = read-HasEffect _ _ (λ link db _.
    bind-HasEffect _ _ (draw_secret-HasEffect env)
      (λ salt. read-HasEffect _ _ (λ before db found. read-Effect _ _ db (λ role _.
        read-Effect _ _ db (λ organization _. bind-Effect _ _ db (quiet refl refl) (λ _ _.
          bind-Effect _ _ _
            (update_user-HasEffect link.user_id (activated (env.hash_password password salt))
              (becomes_active (λ u. (refl, refl))) _)
            (λ _ _. bind-Effect _ _ _ (quiet refl refl) (λ _ _.
              issue_session-Effect env
                (record {
                  user = activated (env.hash_password password salt) before;
                  role = role;
                  organization = organization;
                })
                meta false _
                (activated_live link before db (env.hash_password password salt) found))))))))
      db)

check_password-found :
    (env : AuthEnv) (password email : ℕ) (db : AuthDb) (u : User)
    → check_password env password (find_by_email email db) ≡ ok u
    → find_by_email email db ≡ some u
check_password-found env password email db u h = ground arith

active_of : (status : UserStatus) → may_log_in status ≡ ok tt → user_status_eq status active ≡ true
active_of pending_verification h = cc
active_of invited h = cc
active_of active h = refl
active_of suspended h = cc
active_of deactivated h = cc

-- Whoever may log in is active, and still is after the login was dated.
logged_in_live :
    (env : AuthEnv) (user : User) (email : ℕ) (db : AuthDb)
    → IsKeyed db
    → find_by_email email db ≡ some user
    → may_log_in user.status ≡ ok tt
    → is_active
        (find (λ u. u.id) user.id (modify (λ u. u.id) user.id (logged_in_at env.now) db.users))
      ≡ true
logged_in_live env user email db keyed found may =
    ap is_active (
      find-modify_self (λ u. u.id) user.id (logged_in_at env.now) db.users (λ u. refl)
      ∙ ap (Option.map (logged_in_at env.now))
          (find-found (λ u. u.id) (λ u. u.email) email db.users user keyed found))
    ∙ active_of user.status may

pub login-Effect :
    (env : AuthEnv) (dto : LoginDto) (meta : RequestMeta) (db : AuthDb)
    → IsKeyed db
    → Effect db (login env dto meta db).1
unfolding login record_audit update_user
login-Effect env dto meta db keyed = read-Effect _ _ db (λ user found. read-Effect _ _ db (λ role _.
    read-Effect _ _ db (λ organization _. bind-Effect _ _ db same (λ _ may.
      bind-Effect _ _ db
        (update_user-HasEffect user.id (logged_in_at env.now) (keeps_status (λ u. (refl, refl))) db)
        (λ _ _.
          bind-Effect _ _ _
            (issue_session-Effect env
              (record { user = user; role = role; organization = organization }) meta
              dto.remember_me _
              (logged_in_live env user dto.email db keyed
                (check_password-found env dto.password dto.email db user found) may))
            (λ _ _. bind-Effect _ _ _ (quiet refl refl) (λ _ _. same)))))))

check_reuse-HasEffect :
    (env : AuthEnv) (token : ℕ) (s : Session) → HasEffect (check_reuse env token s)
unfolding update_session
check_reuse-HasEffect env token s db =
    elim (Bool-cases (env.hash_token token == s.refresh_token_hash)) [
      | inl e ↦ rw e same
      | inr e ↦ rw e (session_written s.id _ (revoked_keeps env.now) refl refl)
    ]

pub refresh-HasEffect :
    (env : AuthEnv) (token : ℕ) (meta : RequestMeta) → HasEffect (refresh env token meta)
unfolding refresh
refresh-HasEffect env token meta = lift-HasEffect _ _ (λ payload _. read-HasEffect _ _ (λ s db _.
    bind-HasEffect _ _ (check_reuse-HasEffect env token s)
      (λ _. read-HasEffect _ _ (λ user db _.
        read-HasEffect _ _
          (λ role db _.
            read-HasEffect _ _
              (λ organization db _.
                lift-HasEffect _ _
                  (λ _ _.
                    rotate_session-HasEffect env s.id
                      (record { user = user; role = role; organization = organization }) meta
                      s.is_remember_me)
                  db)
              db)
          db))
      db))
