-- ===== src/Accounts/Effects/Handle.antt =====
-- The calls that add and change members and keys, and all calls together
-- (apps/backend/src/users/users.service.ts, apps/backend/src/auth/auth.service.ts,
-- apps/backend/src/api-keys/api-keys.service.ts).
use sentinel_desk.Prelude.{
  ℕ, ◌≡◌, refl, inl, inr, Option, none, some, Text, ok, find, arith, Option-cases,
}
use sentinel_desk.Schema.{AuthenticatedUser, RoleName}
use sentinel_desk.Accounts.Schema.{
  User, UserStatus, active, suspended, invited, pending_verification, deactivated, ApiKey,
}
use sentinel_desk.Accounts.Store.{
  AuthDb, AuthEnv, Action, find_user, check_key_free, update_user, insert_user, record_audit,
  send_mail, write, ◌>>=◌,
}
use sentinel_desk.Accounts.Tokens.{revoke_sessions}
use sentinel_desk.Accounts.Signup.{
  SignupDto, SignupCustomerDto, registered_user, signup, signup_customer,
}
use sentinel_desk.Accounts.Members.{
  UpdateProfileDto, update_profile, with_profile, InviteUserDto, invite_user, UpdateMemberDto,
  update_member, changed_member, if_suspended, check_status,
}
use sentinel_desk.Accounts.ApiKeys.{create_key, remove_key, validate_key, use_key, as_creator}
use sentinel_desk.Accounts.Calls.{
  Call, signs_up, signs_up_customer, accepts_invite, logs_in, refreshes, verifies_email,
  resends_verification, forgets_password, resets_password, logs_out, logs_out_others,
  revokes_session, updates_profile, invites, updates_member, creates_key, removes_key, presents_key,
  perform,
}
use sentinel_desk.Accounts.Effects.{
  IsKeyed, Effect, quiet, user_written, user_suspended, user_added, followed_by, same, HasEffect,
  bind-Effect, bind-HasEffect, read-HasEffect, lift-HasEffect,
}
use sentinel_desk.Accounts.Effects.Tokens.{draw_secret-HasEffect, draw_key-HasEffect}
use sentinel_desk.Accounts.Effects.Calls.{
  update_user-HasEffect, keeps_status, becomes_active, issue_email_verification-HasEffect,
  verify_email-HasEffect, logout-HasEffect, logout_all_other_sessions-HasEffect,
  revoke_session-HasEffect, resend_verification-HasEffect, forgot_password-HasEffect,
  reset_password-HasEffect, accept_invite-HasEffect, login-Effect, refresh-HasEffect,
}

key_free : (key : ℕ) (db : AuthDb) → check_key_free key db ≡ ok tt → find_user key db ≡ none
key_free key db h = elim (Option-cases (find_user key db)) [ inl e ↦ e | inr (u, e) ↦ ground arith ]

-- A new user under a free key, whatever the rest of the call does.
module _ (user : User) {B : Type 0} (k : Unit {0} → Action B) (rest : HasEffect (k tt)) where
  insert_user-HasEffect :
      (db : AuthDb)
      → find_user user.id db ≡ none
      → Effect db ((write (insert_user user) >>= k) db).1
  unfolding insert_user
  insert_user-HasEffect db free =
      bind-Effect _ _ db (user_added user free refl refl) (λ _ _. rest _)

update_profile-HasEffect :
    (env : AuthEnv) (id : ℕ) (dto : UpdateProfileDto) → HasEffect (update_profile env id dto)
unfolding update_profile
update_profile-HasEffect env id dto =
    read-HasEffect _ _ (λ user db _.
      update_user-HasEffect id (with_profile dto) (keeps_status (λ u. (refl, refl))) db)

invite_user-HasEffect :
    (env : AuthEnv) (inviter organization : ℕ) (role : RoleName) (dto : InviteUserDto)
    → HasEffect (invite_user env inviter organization role dto)
unfolding invite_user record_audit send_mail
invite_user-HasEffect env inviter organization_id role dto = lift-HasEffect _ _ (λ _ _.
    read-HasEffect _ _ (λ _ db _.
      read-HasEffect _ _
        (λ role db _.
          read-HasEffect _ _
            (λ organization db _.
              read-HasEffect _ _
                (λ inviter db _.
                  bind-HasEffect _ _ (draw_key-HasEffect env)
                    (λ key. read-HasEffect _ _ (λ _ db free.
                      insert_user-HasEffect _ _
                        (bind-HasEffect _ _ (draw_secret-HasEffect env) (λ token.
                          bind-HasEffect _ _ (draw_key-HasEffect env) (λ link.
                            bind-HasEffect _ _ (λ db. quiet refl refl)
                              (λ _.
                                bind-HasEffect _ _ (λ db. quiet refl refl)
                                  (λ _.
                                    bind-HasEffect _ _ (λ db. quiet refl refl) (λ _ db. same))))))
                        db (key_free key db free)))
                    db)
                db)
            db)
        db))

signup-HasEffect :
    (env : AuthEnv) (rounds : ℕ) (dto : SignupDto) → HasEffect (signup env rounds dto)
unfolding signup record_audit
signup-HasEffect env rounds dto = read-HasEffect _ _ (λ _ db _.
    read-HasEffect _ _
      (λ slug db _.
        read-HasEffect _ _
          (λ role db _.
            bind-HasEffect _ _ (draw_secret-HasEffect env)
              (λ salt. bind-HasEffect _ _ (draw_key-HasEffect env) (λ organization_id.
                bind-HasEffect _ _ (draw_key-HasEffect env) (λ key. read-HasEffect _ _ (λ _ db free.
                  bind-Effect _ _ db (quiet refl refl) (λ _ _.
                    insert_user-HasEffect _ _
                      (bind-HasEffect _ _
                        (issue_email_verification-HasEffect env (
                          registered_user env organization_id dto.email
                            (env.hash_password dto.password salt) dto.first_name dto.last_name
                            role.id key))
                        (λ _ db. quiet refl refl))
                      _ (key_free key db free))))))
              db)
          db)
      db)

signup_customer-HasEffect :
    (env : AuthEnv) (dto : SignupCustomerDto) → HasEffect (signup_customer env dto)
unfolding signup_customer record_audit
signup_customer-HasEffect env dto = read-HasEffect _ _ (λ organization db _.
    read-HasEffect _ _
      (λ _ db _.
        read-HasEffect _ _
          (λ role db _.
            bind-HasEffect _ _ (draw_secret-HasEffect env)
              (λ salt. bind-HasEffect _ _ (draw_key-HasEffect env) (λ key.
                read-HasEffect _ _ (λ _ db free.
                  insert_user-HasEffect _ _
                    (bind-HasEffect _ _
                      (issue_email_verification-HasEffect env (
                        registered_user env organization.id dto.email
                          (env.hash_password dto.password salt) dto.first_name dto.last_name role.id
                          key))
                      (λ _ db. quiet refl refl))
                    db (key_free key db free))))
              db)
          db)
      db)

-- The two writes of an update of a member, taken together: only suspension makes an active account
-- inactive, and it ends the account's sessions.
member_written :
    (now target : ℕ) (role : Option ℕ) (status : Option UserStatus)
    → check_status status ≡ ok tt
    → HasEffect (
        write (λ db.
          if_suspended status target now (update_user target (changed_member role status) db)))
unfolding update_user if_suspended revoke_sessions
member_written now target role none h db =
    user_written target _ (keeps_status (λ u. (refl, refl))) refl refl
member_written now target role (some active) h db =
    user_written target _ (becomes_active (λ u. (refl, refl))) refl refl
member_written now target role (some suspended) h db =
    user_suspended target (changed_member role (some suspended)) now (λ u. refl) refl refl
member_written now target role (some pending_verification) h db = cc
member_written now target role (some invited) h db = cc
member_written now target role (some deactivated) h db = cc

two_writes-Effect :
    {B : Type 0} (f g : AuthDb → AuthDb) (k : Unit {0} → Action B) (db : AuthDb)
    → Effect db (g (f db))
    → Effect (g (f db)) (k tt (g (f db))).1
    → Effect db ((write f >>= (λ _. write g >>= k)) db).1
unfolding ◌>>=◌
two_writes-Effect f g k db e rest = followed_by e rest

update_member-HasEffect :
    (env : AuthEnv) (actor : ℕ) (role : RoleName) (organization target : ℕ) (dto : UpdateMemberDto)
    → HasEffect (update_member env actor role organization target dto)
unfolding update_member record_audit
update_member-HasEffect env actor role organization target dto = lift-HasEffect _ _ (λ _ _.
    read-HasEffect _ _ (λ user db _.
      lift-HasEffect _ _
        (λ _ _. lift-HasEffect _ _ (λ _ status_ok. read-HasEffect _ _ (λ role_id db _.
          two_writes-Effect _ _ _ db (member_written env.now target role_id dto.status status_ok db)
            (quiet refl refl))))
        db))

create_key-HasEffect :
    (env : AuthEnv) (user : AuthenticatedUser) (name : Text) → HasEffect (create_key env user name)
unfolding create_key
create_key-HasEffect env user name = bind-HasEffect _ _ (draw_secret-HasEffect env) (λ raw_key.
    bind-HasEffect _ _ (draw_key-HasEffect env)
      (λ key. bind-HasEffect _ _ (λ db. quiet refl refl) (λ _ db. same)))

remove_key-HasEffect : (user : AuthenticatedUser) (id : ℕ) → HasEffect (remove_key user id)
unfolding remove_key
remove_key-HasEffect user id = read-HasEffect _ _ (λ _ db _. quiet refl refl)

as_creator-HasEffect : (env : AuthEnv) (key : ApiKey) → HasEffect (as_creator env key)
as_creator-HasEffect env key = read-HasEffect _ _ (λ user db _.
    read-HasEffect _ _ (λ role db _. read-HasEffect _ _ (λ permissions db _. same) db) db)

use_key-HasEffect : (env : AuthEnv) (key : Option ApiKey) → HasEffect (use_key env key)
use_key-HasEffect env none db = same
use_key-HasEffect env (some key) db = followed_by (quiet refl refl) (as_creator-HasEffect env key _)

validate_key-HasEffect : (env : AuthEnv) (raw_key : ℕ) → HasEffect (validate_key env raw_key)
unfolding validate_key
validate_key-HasEffect env raw_key db =
    use_key-HasEffect env (find (λ k. k.key_hash) (env.hash_token raw_key) db.api_keys) db

-- Whatever a call does to statuses and sessions is one of the effects, whether it throws or not.
pub perform-Effect :
    (env : AuthEnv) (call : Call) (db : AuthDb) → IsKeyed db → Effect db (perform env call db)
unfolding perform
perform-Effect env (signs_up rounds dto) db keyed = signup-HasEffect env rounds dto db
perform-Effect env (signs_up_customer dto) db keyed = signup_customer-HasEffect env dto db
perform-Effect env (accepts_invite token password meta) db keyed =
    accept_invite-HasEffect env token password meta db
perform-Effect env (logs_in dto meta) db keyed = login-Effect env dto meta db keyed
perform-Effect env (refreshes token meta) db keyed = refresh-HasEffect env token meta db
perform-Effect env (verifies_email token) db keyed = verify_email-HasEffect env token db
perform-Effect env (resends_verification email) db keyed =
    resend_verification-HasEffect env email db
perform-Effect env (forgets_password email) db keyed = forgot_password-HasEffect env email db
perform-Effect env (resets_password token password) db keyed =
    reset_password-HasEffect env token password db
perform-Effect env (logs_out user) db keyed = logout-HasEffect env user.session_id db
perform-Effect env (logs_out_others user) db keyed =
    logout_all_other_sessions-HasEffect env user.id user.session_id db
perform-Effect env (revokes_session user id) db keyed = revoke_session-HasEffect env user.id id db
perform-Effect env (updates_profile user dto) db keyed = update_profile-HasEffect env user.id dto db
perform-Effect env (invites user dto) db keyed =
    invite_user-HasEffect env user.id user.organization_id user.role dto db
perform-Effect env (updates_member user target dto) db keyed =
    update_member-HasEffect env user.id user.role user.organization_id target dto db
perform-Effect env (creates_key user name) db keyed = create_key-HasEffect env user name db
perform-Effect env (removes_key user id) db keyed = remove_key-HasEffect user id db
perform-Effect env (presents_key raw_key) db keyed = validate_key-HasEffect env raw_key db
