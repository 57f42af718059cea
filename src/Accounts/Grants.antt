-- ===== src/Accounts/Grants.antt =====
-- Which roles may be granted, and what an update of a member does
-- (apps/backend/src/users/users.service.ts: ALLOWED_INVITE_ROLES, inviteUser, updateMember).
use sentinel_desk.Prelude.{
  ℕ, Bool, true, false, not, ◌≡◌, ◌≢◌, ◌⊎◌, ◌∙◌, ap, sym, subst, refl, inl, inr, ◌<◌, ◌≤◌, Option,
  none, some, [], ◌∷◌, ◌++◌, ok, arith, ◌==◌, Option-cases, throw_if, HttpError, List, find,
  find-modify_self, find-modify_ne, Bool-cases,
}
use mathlib.Core.Option
use sentinel_desk.Schema.{RoleName, customer, agent, senior_agent, manager, admin}
use sentinel_desk.Accounts.Schema.{
  User, Role, UserStatus, role_eq, pending_verification, invited, active, suspended, deactivated,
}
use sentinel_desk.Accounts.Store.{
  AuthDb, AuthEnv, find_user, find_by_email, find_role_by_name, update_user, insert_user,
  record_audit, draw_key, draw_secret, send_mail,
}
use sentinel_desk.Accounts.Tokens.{revoke_sessions}
use sentinel_desk.Accounts.Outcomes.{
  or_throw-some, Yields, Yields-ok, bind-Yields, read-Yields, lift-Yields, write-Yields,
}
use sentinel_desk.Accounts.Members.{
  may_grant, UpdateMemberDto, update_member, check_target, check_role, check_status,
  role_to_connect, changed_member, if_suspended, InviteUserDto, invite_user, invited_user,
  check_email_free,
}
use sentinel_desk.Accounts.Reset.{AreOver, revoke_sessions-AreOver}

abbrev pub rank : RoleName → ℕ
rank customer = 0
rank agent = 1
rank senior_agent = 2
rank manager = 3
rank admin = 4

-- Managers and administrators grant roles: those below their own, and administrators their own too.
abbrev pub IsGrantable : RoleName → RoleName → Type 0
IsGrantable actor role = (3 ≤ rank actor) × ((rank role < rank actor) ⊎ (rank actor ≡ 4))

may_grant-IsGrantable :
    (actor role : RoleName) → may_grant actor role ≡ true → IsGrantable actor role
may_grant-IsGrantable admin role h = (omega arith, inr refl)
may_grant-IsGrantable manager customer h = (omega arith, inl (omega arith))
may_grant-IsGrantable manager agent h = (omega arith, inl (omega arith))
may_grant-IsGrantable manager senior_agent h = (omega arith, inl (omega arith))
may_grant-IsGrantable manager manager h = cc
may_grant-IsGrantable manager admin h = cc
may_grant-IsGrantable senior_agent role h = cc
may_grant-IsGrantable agent role h = cc
may_grant-IsGrantable customer role h = cc

-- What is granted, when something is.
abbrev pub MayGrant : RoleName → Option RoleName → Type 0
MayGrant actor none = Unit
MayGrant actor (some role) = IsGrantable actor role

abbrev pub IsSettable : Option UserStatus → Type 0
IsSettable status = (status ≡ none) ⊎ (status ≡ some active) ⊎ (status ≡ some suspended)

-- The role that a row holds after an update, and its status: what was asked for, else as before.
abbrev pub HoldsRole : Option RoleName → AuthDb → User → User → Type 0
HoldsRole none db before after = after.role_id ≡ before.role_id
HoldsRole (some name) db before after =
    (role : Role) × (find_role_by_name name db.roles ≡ some role)
    × (role.name ≡ name)
    × (after.role_id ≡ role.id)

abbrev pub HoldsStatus : Option UserStatus → User → User → Type 0
HoldsStatus none before after = after.status ≡ before.status
HoldsStatus (some status) before after = after.status ≡ status

-- What an update that is answered was, and what is left.
pub record IsUpdated (actor_id : ℕ) (actor_role : RoleName) (organization_id target_id : ℕ)
    (dto : UpdateMemberDto) (db after : AuthDb) : Type 0 where
  pub somebody_else : target_id ≢ actor_id
  pub target : User
  pub found : find_user target_id db ≡ some target
  pub colleague : target.organization_id ≡ organization_id
  pub may_grant : MayGrant actor_role dto.role
  pub settable : IsSettable dto.status
  pub row : User
  pub written : find_user target_id after ≡ some row
  pub role : HoldsRole dto.role db target row
  pub status : HoldsStatus dto.status target row
  pub colleague_still : row.organization_id ≡ organization_id
  pub same_email : row.email ≡ target.email
  pub same_password : row.password_hash ≡ target.password_hash
  pub others : (id : ℕ) → id ≢ target_id → find_user id after ≡ find_user id db
  pub signed_out : dto.status ≡ some suspended → AreOver target_id after.sessions

undo_not : {b : Bool} → not b ≡ false → b ≡ true
undo_not {b = true} h = refl
undo_not {b = false} h = cc

different : (m n : ℕ) → (m == n) ≡ false → m ≢ n
different m n h = ground arith

throw_if-ok : (b : Bool) (e : HttpError) {a : Unit {0}} → throw_if b e ≡ ok a → b ≡ false
throw_if-ok true e h = cc
throw_if-ok false e h = refl

check_target-ok :
    (organization_id : ℕ) (o : Option User) (u : User)
    → check_target organization_id o ≡ ok u
    → (o ≡ some u) × (u.organization_id ≡ organization_id)
check_target-ok organization_id none u h = cc
check_target-ok organization_id (some v) u h = ground arith

check_role-ok :
    (actor : RoleName) (role : Option RoleName) {a : Unit {0}}
    → check_role actor role ≡ ok a
    → MayGrant actor role
check_role-ok actor none h = tt
check_role-ok actor (some role) h =
    may_grant-IsGrantable actor role (undo_not (throw_if-ok (not (may_grant actor role)) _ h))

check_status-ok :
    (status : Option UserStatus) {a : Unit {0}} → check_status status ≡ ok a → IsSettable status
check_status-ok none h = inl refl
check_status-ok (some active) h = inr (inl refl)
check_status-ok (some suspended) h = inr (inr refl)
check_status-ok (some pending_verification) h = cc
check_status-ok (some invited) h = cc
check_status-ok (some deactivated) h = cc

if_suspended-users :
    (status : Option UserStatus) (target now : ℕ) (db : AuthDb)
    → (if_suspended status target now db).users ≡ db.users
unfolding if_suspended revoke_sessions
if_suspended-users none target now db = refl
if_suspended-users (some suspended) target now db = refl
if_suspended-users (some active) target now db = refl
if_suspended-users (some pending_verification) target now db = refl
if_suspended-users (some invited) target now db = refl
if_suspended-users (some deactivated) target now db = refl

if_suspended-AreOver :
    (status : Option UserStatus) (target now : ℕ) (db : AuthDb)
    → status ≡ some suspended
    → AreOver target (if_suspended status target now db).sessions
unfolding if_suspended
if_suspended-AreOver status target now db e =
    subst (λ s. AreOver target (if_suspended s target now db).sessions) (sym e)
      (revoke_sessions-AreOver target now db)

role_eq_sound : (a b : RoleName) → role_eq a b ≡ true → a ≡ b
role_eq_sound customer customer h = refl
role_eq_sound agent agent h = refl
role_eq_sound senior_agent senior_agent h = refl
role_eq_sound manager manager h = refl
role_eq_sound admin admin h = refl
role_eq_sound _ _ h = cc

pub find_role_by_name-name :
    (name : RoleName) (roles : List Role) (role : Role)
    → find_role_by_name name roles ≡ some role
    → role.name ≡ name
find_role_by_name-name name [] role h = cc
find_role_by_name-name name (r ∷ rs) role h = elim (Bool-cases (role_eq r.name name)) [
  | inl same ↦ ground (arith, role_eq_sound r.name name same)
  | inr other ↦ find_role_by_name-name name rs role (ground arith)
]

changed_member-HoldsRole :
    (asked : Option RoleName) (status : Option UserStatus) (role_id : Option ℕ) (db : AuthDb)
    (target : User)
    → role_to_connect asked db ≡ ok role_id
    → HoldsRole asked db target (changed_member role_id status target)
changed_member-HoldsRole none status role_id db target h = ground arith
changed_member-HoldsRole (some name) status role_id db target h =
    elim (Option-cases (find_role_by_name name db.roles)) [
      | inl e ↦ ground arith
      | inr (role, e) ↦ (role, e, find_role_by_name-name name db.roles role e, ground arith)
    ]

changed_member-HoldsStatus :
    (status : Option UserStatus) (role_id : Option ℕ) (target : User)
    → HoldsStatus status target (changed_member role_id status target)
changed_member-HoldsStatus none role_id target = refl
changed_member-HoldsStatus (some status) role_id target = refl

update_member-Yields :
    (env : AuthEnv) (actor_id : ℕ) (actor_role : RoleName) (organization_id target_id : ℕ)
    (dto : UpdateMemberDto) (db : AuthDb)
    → Yields
        (λ _ after. IsUpdated actor_id actor_role organization_id target_id dto db after)
        (update_member env actor_id actor_role organization_id target_id dto db)
unfolding update_member record_audit update_user
update_member-Yields env actor_id actor_role organization_id target_id dto db =
    lift-Yields _ _ _ db (λ _ other. read-Yields _ _ _ db (λ target checked.
      lift-Yields _ _ _ db (λ _ grantable. lift-Yields _ _ _ db (λ _ settable.
        read-Yields _ _ _ db (λ role_id connected. write-Yields _ _ _ db (
          write-Yields _ _ _ _ (
            let (found, colleague) = check_target-ok organization_id _ target checked in
            let change = changed_member role_id dto.status in
            let users =
              if_suspended-users dto.status target_id env.now (update_user target_id change db) in
            let updated : IsUpdated actor_id actor_role organization_id target_id dto db _ =
              record {
                somebody_else = different _ _ (throw_if-ok (target_id == actor_id) _ other);
                target = target;
                found = found;
                colleague = colleague;
                may_grant = check_role-ok actor_role dto.role grantable;
                settable = check_status-ok dto.status settable;
                row = change target;
                written =
                    ap (λ us. find (λ u. u.id) target_id us) users
                    ∙ find-modify_self (λ u. u.id) target_id change db.users (λ u. refl)
                    ∙ ap (Option.map change) found;
                role = changed_member-HoldsRole dto.role dto.status role_id db target connected;
                status = changed_member-HoldsStatus dto.status role_id target;
                colleague_still = colleague;
                same_email = refl;
                same_password = refl;
                others = λ id apart.
                    ap (λ us. find (λ u. u.id) id us) users
                    ∙ find-modify_ne (λ u. u.id) target_id id change db.users (λ u. refl) apart;
                signed_out = if_suspended-AreOver dto.status target_id env.now _;
              } in
            updated)))))))

-- An update of a member that is answered was of a colleague, not of the actor himself; the role it
-- gives, if any, is below the actor's (or the actor is an administrator), and the actor is at least
-- a manager then; the status it sets, if any, is active or suspended. The member's row then holds
-- the key of a role of just the name that was asked for, and the status that was asked for, each as
-- before where none was; its address, password and organization stay; every other user is found as
-- before; and a suspension leaves the member no live session.
pub update_member-IsUpdated :
    (env : AuthEnv) (actor_id : ℕ) (actor_role : RoleName) (organization_id target_id : ℕ)
    (dto : UpdateMemberDto) (db : AuthDb)
    → (update_member env actor_id actor_role organization_id target_id dto db).0 ≡ ok tt
    → IsUpdated actor_id actor_role organization_id target_id dto db
        (update_member env actor_id actor_role organization_id target_id dto db).1
update_member-IsUpdated env actor_id actor_role organization_id target_id dto db h =
    Yields-ok (λ _ after. IsUpdated actor_id actor_role organization_id target_id dto db after) _ _
      tt (update_member-Yields env actor_id actor_role organization_id target_id dto db) h

-- What an invitation that is answered was, and what is left.
pub record IsInvited (env : AuthEnv) (organization_id : ℕ) (inviter_role : RoleName)
    (dto : InviteUserDto) (db : AuthDb) (user : User) (after : AuthDb) : Type 0 where
  pub may_grant : IsGrantable inviter_role dto.role
  pub new_email : find_by_email dto.email db ≡ none
  pub role : Role
  pub granted : find_role_by_name dto.role db.roles ≡ some role
  pub role_name : role.name ≡ dto.role
  pub holds_role : user.role_id ≡ role.id
  pub status : user.status ≡ invited
  pub no_password : user.password_hash ≡ none
  pub email : user.email ≡ dto.email
  pub first_name : user.first_name ≡ dto.first_name
  pub last_name : user.last_name ≡ dto.last_name
  pub colleague : user.organization_id ≡ organization_id
  pub added : after.users ≡ db.users ++ (user ∷ [])
  pub nobody_signed_in : after.sessions ≡ db.sessions

pub email_free :
    (email : ℕ) (db : AuthDb) {a : Unit {0}}
    → check_email_free email db ≡ ok a
    → find_by_email email db ≡ none
email_free email db h = elim (Option-cases (find_by_email email db)) [
  | inl e ↦ e
  | inr (u, e) ↦ ground arith
]

-- The users and the sessions stay.
abbrev pub KeepsPeople : AuthDb → AuthDb → Type 0
KeepsPeople db after = (after.users ≡ db.users) × (after.sessions ≡ db.sessions)

invite_user-Yields :
    (env : AuthEnv) (inviter_id organization_id : ℕ) (inviter_role : RoleName) (dto : InviteUserDto)
    (db : AuthDb)
    → Yields
        (IsInvited env organization_id inviter_role dto db)
        (invite_user env inviter_id organization_id inviter_role dto db)
unfolding invite_user draw_key draw_secret insert_user send_mail record_audit
invite_user-Yields env inviter_id organization_id inviter_role dto db =
    lift-Yields _ _ _ db (λ _ grantable. read-Yields _ _ _ db (λ _ free.
      read-Yields _ _ _ db (λ role granted. read-Yields _ _ _ db (λ organization _.
        read-Yields _ _ _ db (λ inviter _.
          bind-Yields _ (λ key after. KeepsPeople db after) _ _ db (refl, refl)
            (λ key after (users, sessions). read-Yields _ _ _ after (λ _ _.
              write-Yields _ _ _ after (
                bind-Yields _
                  (λ token later.
                    KeepsPeople
                      (insert_user (invited_user env organization_id dto role.id key) after) later)
                  _ _ _ (refl, refl)
                  (λ token later kept.
                    bind-Yields _ (λ link last. KeepsPeople later last) _ _ later (refl, refl)
                      (λ link last keeps. write-Yields _ _ _ last (
                        write-Yields _ _ _ _ (
                          write-Yields _ _ _ _ (
                            let user : User = invited_user env organization_id dto role.id key in
                            let invited : IsInvited env organization_id inviter_role dto db user _ =
                              record {
                                may_grant = may_grant-IsGrantable inviter_role dto.role (
                                    undo_not (
                                      throw_if-ok (not (may_grant inviter_role dto.role)) _
                                        grantable));
                                new_email = email_free dto.email db free;
                                role = role;
                                granted = or_throw-some _ _ role granted;
                                role_name =
                                    find_role_by_name-name dto.role db.roles role
                                      (or_throw-some _ _ role granted);
                                holds_role = refl;
                                status = refl;
                                no_password = refl;
                                email = refl;
                                first_name = refl;
                                last_name = refl;
                                colleague = refl;
                                added = keeps.0 ∙ kept.0 ∙ ap (λ us. us ++ user ∷ []) users;
                                nobody_signed_in = keeps.1 ∙ kept.1 ∙ sessions;
                              } in
                            invited)))))))))))))

-- An invitation that is answered gives a role that the inviter may grant, to an address that had no
-- account, and adds one row: of the inviter's organization, with the invited address and names, the
-- role that was asked for, the status INVITED and no password. It signs nobody in.
pub invite_user-IsInvited :
    (env : AuthEnv) (inviter_id organization_id : ℕ) (inviter_role : RoleName) (dto : InviteUserDto)
    (db : AuthDb) (user : User)
    → (invite_user env inviter_id organization_id inviter_role dto db).0 ≡ ok user
    → IsInvited env organization_id inviter_role dto db user
        (invite_user env inviter_id organization_id inviter_role dto db).1
invite_user-IsInvited env inviter_id organization_id inviter_role dto db user h =
    Yields-ok (IsInvited env organization_id inviter_role dto db) _ _ user
      (invite_user-Yields env inviter_id organization_id inviter_role dto db) h
