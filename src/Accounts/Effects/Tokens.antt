-- ===== src/Accounts/Effects/Tokens.antt =====
-- Issuing and rotating a session (apps/backend/src/auth/auth.service.ts: issueSession, rotateSession).
use sentinel_desk.Prelude.{ℕ, Bool, true, ◌≡◌, ◌∙◌, ap, refl, Text, is_some}
use sentinel_desk.Accounts.Schema.{Session}
use sentinel_desk.Accounts.Store.{
  AuthDb, AuthEnv, FullUser, find_user, draw_secret, draw_key, insert_session, update_session,
  write,
}
use sentinel_desk.Accounts.Tokens.{
  RequestMeta, TokenPair, sign_token_pair, hand_out, issue_session, rotate_session, refresh_ttl,
  new_session,
}
use sentinel_desk.Accounts.Effects.{
  is_active, KeepsSession, Effect, quiet, opened, session_written, same, HasEffect, bind-Effect,
  bind-HasEffect, read-HasEffect, lift-HasEffect,
}

pub draw_secret-HasEffect : (env : AuthEnv) → HasEffect (draw_secret env)
unfolding draw_secret
draw_secret-HasEffect env db = quiet refl refl

pub draw_key-HasEffect : (env : AuthEnv) → HasEffect (draw_key env)
unfolding draw_key
draw_key-HasEffect env db = quiet refl refl

sign_token_pair-HasEffect :
    (env : AuthEnv) (full : FullUser) (id : ℕ) (ttl : Text)
    → HasEffect (sign_token_pair env full id ttl)
unfolding sign_token_pair
sign_token_pair-HasEffect env full id ttl = read-HasEffect _ _ (λ permissions db _.
    lift-HasEffect _ _ (λ access _. lift-HasEffect _ _ (λ refresh _ db. same)) db)

hand_out-HasEffect :
    (env : AuthEnv) (full : FullUser) (pair : TokenPair) (expires : ℕ)
    → HasEffect (hand_out env full pair expires)
unfolding hand_out
hand_out-HasEffect env full pair expires =
    bind-HasEffect _ _ (draw_secret-HasEffect env)
      (λ csrf. lift-HasEffect _ _ (λ access _ db. same))

update_session-Effect :
    (id : ℕ) (f : Session → Session) → KeepsSession f → HasEffect (write (update_session id f))
unfolding update_session
update_session-Effect id f keeps db = session_written id f keeps refl refl

-- A write that keeps the three columns as they are.
rehashed :
    {f : Session → Session}
    → ((s : Session)
        → ((f s).id ≡ s.id) × ((f s).user_id ≡ s.user_id) × ((f s).revoked_at ≡ s.revoked_at))
    → KeepsSession f
rehashed same_columns = record {
  same_id = λ s. (same_columns s).0;
  same_owner = λ s. (same_columns s).1;
  still_revoked = λ s h. ap is_some (same_columns s).2 ∙ h;
}

-- A session may be issued for an active user.
pub issue_session-Effect :
    (env : AuthEnv) (full : FullUser) (meta : RequestMeta) (remember_me : Bool) (db : AuthDb)
    → is_active (find_user full.user.id db) ≡ true
    → Effect db (issue_session env full meta remember_me db).1
unfolding issue_session draw_secret draw_key insert_session
issue_session-Effect env full meta remember_me db live = bind-Effect _ _ db same (λ expires _.
    bind-Effect _ _ db (draw_secret-HasEffect env db) (λ placeholder _.
      bind-Effect _ _ _ (draw_key-HasEffect env _) (λ key _.
        bind-Effect _ _ _
          (opened (new_session env meta remember_me full.user.id key placeholder expires) live refl
            refl)
          (λ _ _.
            bind-HasEffect _ _
              (sign_token_pair-HasEffect env full key (refresh_ttl env.jwt remember_me))
              (λ pair.
                bind-HasEffect _ _ (update_session-Effect _ _ (rehashed (λ s. (refl, refl, refl))))
                  (λ _. hand_out-HasEffect env full pair expires))
              _))))

pub rotate_session-HasEffect :
    (env : AuthEnv) (id : ℕ) (full : FullUser) (meta : RequestMeta) (remember_me : Bool)
    → HasEffect (rotate_session env id full meta remember_me)
unfolding rotate_session
rotate_session-HasEffect env id full meta remember_me = lift-HasEffect _ _ (λ expires _.
    bind-HasEffect _ _ (sign_token_pair-HasEffect env full id _) (λ pair.
      bind-HasEffect _ _ (update_session-Effect _ _ (rehashed (λ s. (refl, refl, refl))))
        (λ _. hand_out-HasEffect env full pair expires)))
