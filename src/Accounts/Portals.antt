-- ===== src/Accounts/Portals.antt =====
-- The address of a new organization (apps/backend/src/auth/auth.service.ts: signup).
use sentinel_desk.Prelude.{
  ℕ, ◌<◌, Bool, true, false, ◌≡◌, ◌≢◌, ◌∙◌, ap, refl, inl, inr, none, some, List, [], ◌∷◌, ◌++◌,
  map, Text, text_eq, ok, internal_error, slug_not_found_yet, is_some, length, All, arith,
  Bool-cases,
}
use sentinel_desk.Schema.{admin}
use sentinel_desk.Helpers.Probe.{probe-free, probe-finds, is_listed}
use sentinel_desk.Accounts.Schema.{Organization, Role, User, pending_verification}
use sentinel_desk.Accounts.Store.{
  AuthDb, AuthEnv, find_by_slug, find_by_email, find_role_by_name, draw_secret, draw_key,
  insert_user, record_audit, send_mail,
}
use sentinel_desk.Accounts.Outcomes.{
  or_throw-some, Yields, Yields-ok, bind-Yields, read-Yields, write-Yields,
}
use sentinel_desk.Accounts.Links.{issue_email_verification}
use sentinel_desk.Accounts.Grants.{email_free, find_role_by_name-name}
use sentinel_desk.Accounts.Signup.{
  SignupDto, signup, free_slug, slug_taken, slug_candidate, slug_base, new_organization,
  registered_user,
}

abbrev pub has_slug : Text → Organization → Bool
has_slug slug o = text_eq o.slug slug

taken-listed :
    (slug : Text) (os : List Organization)
    → is_some (find_by_slug slug os) ≡ true
    → is_listed (map (λ o. o.slug) os) slug ≡ true
taken-listed slug [] h = cc
taken-listed slug (o ∷ os) h = elim (Bool-cases (text_eq o.slug slug)) [
  | inl e ↦ rw e refl
  | inr e ↦ ground (arith, taken-listed slug os)
]

length-map : (os : List Organization) → length (map (λ o. o.slug) os) ≡ length os
length-map [] = refl
length-map (o ∷ os) = omega (arith, length-map os)

free-All :
    (slug : Text) (os : List Organization)
    → is_some (find_by_slug slug os) ≡ false
    → All (λ o. text_eq o.slug slug ≡ false) os
free-All slug [] h = tt
free-All slug (o ∷ os) h = elim (Bool-cases (text_eq o.slug slug)) [
  | inl e ↦ ground arith
  | inr e ↦ (e, free-All slug os (ground arith))
]

free_slug-free :
    (env : AuthEnv) (rounds : ℕ) (name : Text) (db : AuthDb) (slug : Text)
    → free_slug env rounds name db ≡ some slug
    → All (λ o. text_eq o.slug slug ≡ false) db.organizations
unfolding free_slug
free_slug-free env rounds name db slug found =
    free-All slug db.organizations
      (probe-free (slug_taken db) (slug_candidate env (slug_base name)) rounds 0 slug found)

-- If the names that the loop of a signup tries differ from each other, it ends within one round more
-- than there are organizations, with a name that no organization has.
pub free_slug-finds :
    (env : AuthEnv) (rounds : ℕ) (name : Text) (db : AuthDb)
    → length db.organizations < rounds
    → ((i j : ℕ)
        → i < j
        → j < rounds
        → slug_candidate env (slug_base name) i ≢ slug_candidate env (slug_base name) j)
    → (slug : Text) × (free_slug env rounds name db ≡ some slug)
      × All (λ o. text_eq o.slug slug ≡ false) db.organizations
unfolding free_slug
free_slug-finds env rounds name db enough differ =
    let names = map (λ o. o.slug) db.organizations in
    let (slug, found) =
      probe-finds (slug_taken db) (slug_candidate env (slug_base name)) rounds 0 names
        (λ i j lt bound. differ i j lt (omega (arith, bound)))
        (λ j _ _ hit. taken-listed (slug_candidate env (slug_base name) j) db.organizations hit)
        (omega (arith, length-map db.organizations, enough)) in
    (slug, found, free_slug-free env rounds name db slug found)

-- What a signup that is answered leaves.
pub record IsSignedUp (env : AuthEnv) (dto : SignupDto) (db after : AuthDb) : Type 0 where
  pub new_email : find_by_email dto.email db ≡ none
  pub slug : Text
  pub new_slug : All (λ o. text_eq o.slug slug ≡ false) db.organizations
  pub role : Role
  pub found_role : find_role_by_name admin db.roles ≡ some role
  pub is_admin : role.name ≡ admin
  pub salt : ℕ
  pub organization : Organization
  pub organization_name : organization.name ≡ dto.organization_name
  pub organization_slug : organization.slug ≡ slug
  pub user : User
  pub status : user.status ≡ pending_verification
  pub holds_role : user.role_id ≡ role.id
  pub member : user.organization_id ≡ organization.id
  pub email : user.email ≡ dto.email
  pub first_name : user.first_name ≡ dto.first_name
  pub last_name : user.last_name ≡ dto.last_name
  pub password : user.password_hash ≡ some (env.hash_password dto.password salt)
  pub one_organization : after.organizations ≡ db.organizations ++ (organization ∷ [])
  pub one_user : after.users ≡ db.users ++ (user ∷ [])
  pub nobody_signed_in : after.sessions ≡ db.sessions

-- Organizations, users and sessions stay.
abbrev pub KeepsTenants : AuthDb → AuthDb → Type 0
KeepsTenants db after =
    (after.organizations ≡ db.organizations)
    × (after.users ≡ db.users)
    × (after.sessions ≡ db.sessions)

verification-KeepsTenants :
    (env : AuthEnv) (user : User) (db : AuthDb)
    → Yields (λ _ after. KeepsTenants db after) (issue_email_verification env user db)
unfolding issue_email_verification draw_secret draw_key send_mail
verification-KeepsTenants env user db =
    bind-Yields _ (λ _ after. KeepsTenants db after) _ _ db (refl, refl, refl)
      (λ token after kept.
        bind-Yields _ (λ _ after. KeepsTenants db after) _ _ after kept
          (λ key after kept. write-Yields _ _ _ after kept))

signup-Yields :
    (env : AuthEnv) (rounds : ℕ) (dto : SignupDto) (db : AuthDb)
    → Yields (λ _ after. IsSignedUp env dto db after) (signup env rounds dto db)
unfolding signup draw_secret draw_key insert_user record_audit
signup-Yields env rounds dto db = read-Yields _ _ _ db (λ _ free.
    read-Yields _ _ _ db (λ slug found. read-Yields _ _ _ db (λ role is_admin.
      bind-Yields _ (λ _ after. KeepsTenants db after) _ _ db (refl, refl, refl)
        (λ salt after kept.
          bind-Yields _ (λ _ after. KeepsTenants db after) _ _ after kept
            (λ organization_id after kept.
              bind-Yields _ (λ _ after. KeepsTenants db after) _ _ after kept
                (λ key after kept. read-Yields _ _ _ after (λ _ _. write-Yields _ _ _ after (
                  write-Yields _ _ _ _ (
                    bind-Yields _ _ _ _ _
                      (verification-KeepsTenants env
                        (registered_user env organization_id dto.email
                          (env.hash_password dto.password salt) dto.first_name dto.last_name role.id
                          key)
                        _)
                      (λ _ last later.
                        let hash = env.hash_password dto.password salt in
                        let new_user : User =
                          registered_user env organization_id dto.email hash dto.first_name
                            dto.last_name role.id key in
                        let tenant : Organization =
                          new_organization dto.organization_name slug organization_id in
                        let done : IsSignedUp env dto db _ = record {
                          new_email = email_free dto.email db free;
                          slug = slug;
                          new_slug = free_slug-free env rounds dto.organization_name db slug (
                              or_throw-some (free_slug env rounds dto.organization_name db)
                                (internal_error slug_not_found_yet) slug found);
                          role = role;
                          found_role = or_throw-some _ _ role is_admin;
                          is_admin =
                              find_role_by_name-name admin db.roles role
                                (or_throw-some _ _ role is_admin);
                          salt = salt;
                          organization = tenant;
                          organization_name = refl;
                          organization_slug = refl;
                          user = new_user;
                          status = refl;
                          holds_role = refl;
                          member = refl;
                          email = refl;
                          first_name = refl;
                          last_name = refl;
                          password = refl;
                          one_organization = later.0 ∙ ap (λ os. os ++ tenant ∷ []) kept.0;
                          one_user = later.1 ∙ ap (λ us. us ++ new_user ∷ []) kept.1;
                          nobody_signed_in = later.2 ∙ kept.2;
                        } in
                        done))))))))))

-- A signup that is answered was for an address without an account. It adds one organization, of the
-- given name and under an address that no other has, and one user of it: with the given e-mail
-- address and names, the hash of the given password, the ADMIN role and the status
-- PENDING_VERIFICATION. It signs nobody in.
pub signup-IsSignedUp :
    (env : AuthEnv) (rounds : ℕ) (dto : SignupDto) (db : AuthDb)
    → (signup env rounds dto db).0 ≡ ok tt
    → IsSignedUp env dto db (signup env rounds dto db).1
signup-IsSignedUp env rounds dto db h =
    Yields-ok (λ _ after. IsSignedUp env dto db after) _ _ tt (signup-Yields env rounds dto db) h
