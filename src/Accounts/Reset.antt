-- ===== src/Accounts/Reset.antt =====
-- Resetting a password (apps/backend/src/auth/auth.service.ts: resetPassword).
use sentinel_desk.Prelude.{
  ℕ, true, false, ◌&&◌, ◌||◌, ◌≡◌, ◌∙◌, ap, refl, inl, inr, Option, none, some, List, [], ◌∷◌, map,
  ok, err, unauthorized, link_invalid, is_some, is_none, find, modify, find-modify_other,
  IsDistinct, All, ◌==◌, ltb, arith, Bool-cases, Option-cases,
}
use sentinel_desk.Accounts.Schema.{Session, LinkToken}
use sentinel_desk.Accounts.Store.{AuthDb, AuthEnv, ◌>>=◌, draw_secret, update_user, record_audit}
use sentinel_desk.Accounts.Tokens.{revoke_sessions}
use sentinel_desk.Accounts.Outcomes.{Yields, Yields-ok, bind-Yields, read-Yields, write-Yields}
use sentinel_desk.Accounts.Links.{reset_password, usable_link, check_link, consume}
use sentinel_desk.Accounts.Runs.{revoke_matching-All}

-- Every session of the user is revoked.
abbrev pub AreOver : ℕ → List Session → Type 0
AreOver user_id = All (λ s. (s.user_id == user_id) ≡ true → is_some s.revoked_at ≡ true)

anything : (ss : List Session) → All (λ _. Unit {0}) ss
anything [] = tt
anything (s ∷ ss) = (tt, anything ss)

untouched_over :
    (user_id : ℕ) (s : Session)
    → ((s.user_id == user_id) && is_none s.revoked_at) ≡ false
    → (s.user_id == user_id) ≡ true
    → is_some s.revoked_at ≡ true
untouched_over user_id s h e = elim (Option-cases s.revoked_at) [
  | inl live ↦ ground arith
  | inr (t, over) ↦ ap is_some over
]

pub revoke_sessions-AreOver :
    (user_id now : ℕ) (db : AuthDb)
    → AreOver user_id (revoke_sessions (λ s. s.user_id == user_id) now db).sessions
unfolding revoke_sessions
revoke_sessions-AreOver user_id now db =
    revoke_matching-All (λ _. Unit {0}) _ (λ s. s.user_id == user_id) now db.sessions
      (λ s _ _ _. refl) (λ s h _. untouched_over user_id s h) (anything db.sessions)

-- What a reset that is answered was for, and what is left.
pub record IsReset (env : AuthEnv) (token password : ℕ) (db after : AuthDb) : Type 0 where
  pub link : LinkToken
  pub salt : ℕ
  pub usable : usable_link env token db.reset_tokens ≡ ok link
  pub used : after.reset_tokens ≡ consume env.now link.id db.reset_tokens
  pub password_set :
      after.users
      ≡ modify
          (λ u. u.id)
          link.user_id
          (λ u. record u { password_hash = some (env.hash_password password salt) })
          db.users
  pub signed_out : AreOver link.user_id after.sessions

reset_password-Yields :
    (env : AuthEnv) (token password : ℕ) (db : AuthDb)
    → Yields (λ _ after. IsReset env token password db after) (reset_password env token password db)
unfolding reset_password draw_secret update_user record_audit revoke_sessions
reset_password-Yields env token password db = read-Yields _ _ _ db (λ link usable.
    bind-Yields _ (λ salt after. (after.reset_tokens ≡ db.reset_tokens) × (after.users ≡ db.users))
      _ _ db (refl, refl)
      (λ salt after (links, users). read-Yields _ _ _ after (λ user _. write-Yields _ _ _ after (
        write-Yields _ _ _ _ (
          write-Yields _ _ _ _ (
            let reset : IsReset env token password db _ = record {
              link = link;
              salt = salt;
              usable = usable;
              used = ap (consume env.now link.id) links;
              password_set = ap (modify (λ u. u.id) link.user_id _) users;
              signed_out = revoke_sessions-AreOver link.user_id env.now after;
            } in
            reset))))))

-- A reset that is answered was asked for with a link that is neither used nor expired; it marks the
-- link as used, sets the password of the link's user, and leaves no live session of that user.
pub reset_password-IsReset :
    (env : AuthEnv) (token password : ℕ) (db : AuthDb)
    → (reset_password env token password db).0 ≡ ok tt
    → IsReset env token password db (reset_password env token password db).1
reset_password-IsReset env token password db h =
    Yields-ok (λ _ after. IsReset env token password db after) _ _ tt
      (reset_password-Yields env token password db) h

usable-found :
    (now : ℕ) (o : Option LinkToken) (link : LinkToken) → check_link now o ≡ ok link → o ≡ some link
usable-found now none link h = cc
usable-found now (some l) link h =
    elim (Bool-cases (is_some l.consumed_at || ltb l.expires_at now)) [
      | inl e ↦ ground arith
      | inr e ↦ ground arith
    ]

refused :
    (env : AuthEnv) (token password : ℕ) (db : AuthDb)
    → usable_link env token db.reset_tokens ≡ err (unauthorized link_invalid)
    → reset_password env token password db ≡ (err (unauthorized link_invalid), db)
unfolding reset_password ◌>>=◌
refused env token password db h = rw (h, reset_password) refl

-- If reset links have different keys, a reset that was answered cannot be repeated: the same token
-- is refused at any later instant, whatever the new password, and nothing is written.
pub reset_password-reset_password :
    (env later : AuthEnv) (token password again : ℕ) (db : AuthDb)
    → IsDistinct (map (λ l. l.id) db.reset_tokens)
    → later.hash_token token ≡ env.hash_token token
    → (reset_password env token password db).0 ≡ ok tt
    → reset_password later token again (reset_password env token password db).1
      ≡ (err (unauthorized link_invalid), (reset_password env token password db).1)
reset_password-reset_password env later token password again db distinct same h =
    let past = reset_password-IsReset env token password db h in
    let found = usable-found env.now _ past.link past.usable in
    refused later token again _ (
      ap (check_link later.now) (
        ap (λ i. find (λ l. l.token_hash) i (reset_password env token password db).1.reset_tokens)
          same
        ∙ ap (find (λ l. l.token_hash) (env.hash_token token)) past.used
        ∙ find-modify_other (λ l. l.id) (λ l. l.token_hash) (env.hash_token token)
            (λ l. record l { consumed_at = some env.now }) db.reset_tokens past.link distinct refl
            found))
