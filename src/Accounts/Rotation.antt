-- ===== src/Accounts/Rotation.antt =====
-- Rotation of refresh tokens and the detection of reuse (apps/backend/src/auth/auth.service.ts: refresh,
-- rotateSession).
use mathlib.Core.Option
use sentinel_desk.Prelude.{
  ℕ, Bool, true, false, ◌≡◌, ◌∙◌, ap, sym, subst, refl, inl, inr, none, some, Text, ok, err,
  unauthorized, token_reused, find, modify, find-modify_self, find-key, ◌==◌, ==_iff, ltb,
  Bool-cases,
}
use sentinel_desk.Accounts.Outcomes.{
  Yields, or_throw-some, Yields-ok, bind-Yields, read-Yields, lift-Yields, write-Yields, Yields-map,
}
use sentinel_desk.Accounts.Schema.{Session}
use sentinel_desk.Accounts.Store.{
  AuthDb, AuthEnv, ◌>>=◌, FullUser, find_session, update_session, draw_secret, JwtRefreshPayload,
}
use sentinel_desk.Accounts.Tokens.{
  RequestMeta, TokenPair, AuthTokenResult, sign_token_pair, hand_out, rotate_session,
  rotated_session, refresh_ttl,
}
use sentinel_desk.Accounts.Sessions.{refresh, check_session, check_reuse}
use sentinel_desk.Accounts.Revoked.{check_session-ok}

sign_token_pair-Yields :
    (env : AuthEnv) (full : FullUser) (id : ℕ) (ttl : Text) (db : AuthDb)
    → Yields (λ pair after. after ≡ db) (sign_token_pair env full id ttl db)
unfolding sign_token_pair
sign_token_pair-Yields env full id ttl db =
    read-Yields _ _ _ db
      (λ permissions _. lift-Yields _ _ _ db (λ access _. lift-Yields _ _ _ db (λ refresh _. refl)))

-- The refresh token that is answered is the one that was signed, and the sessions stay.
hand_out-Yields :
    (env : AuthEnv) (full : FullUser) (pair : TokenPair) (expires : ℕ) (db : AuthDb)
    → Yields
        (λ r after. (r.refresh_token ≡ pair.refresh_token) × (after.sessions ≡ db.sessions))
        (hand_out env full pair expires db)
unfolding hand_out draw_secret
hand_out-Yields env full pair expires db =
    bind-Yields _ (λ csrf after. after.sessions ≡ db.sessions) _ _ db refl
      (λ csrf after same. lift-Yields _ _ _ after (λ access _. (refl, same)))

-- What the session of a rotation is afterwards.
abbrev pub HoldsToken : AuthEnv → ℕ → ℕ → AuthTokenResult → AuthDb → Type 0
HoldsToken env id user_id r after =
    (t : Session) × (find_session id after ≡ some t)
    × (t.refresh_token_hash ≡ env.hash_token r.refresh_token)
    × (t.user_id ≡ user_id)
    × (t.revoked_at ≡ none)

found_after :
    (id : ℕ) (f : Session → Session) (db after later : AuthDb) (s : Session)
    → ((s : Session) → (f s).id ≡ s.id)
    → after ≡ db
    → later.sessions ≡ (update_session id f after).sessions
    → find_session id db ≡ some s
    → find_session id later ≡ some (f s)
unfolding update_session
found_after id f db after later s same_id same sessions found =
    ap (find (λ s. s.id) id)
      (sessions ∙ ap (λ (d : AuthDb). modify (λ s. s.id) id f d.sessions) same)
    ∙ find-modify_self (λ s. s.id) id f db.sessions same_id
    ∙ ap (Option.map f) found

rotate_session-Yields :
    (env : AuthEnv) (id : ℕ) (full : FullUser) (meta : RequestMeta) (remember_me : Bool)
    (db : AuthDb) (s : Session)
    → find_session id db ≡ some s
    → s.revoked_at ≡ none
    → Yields (HoldsToken env id s.user_id) (rotate_session env id full meta remember_me db)
unfolding rotate_session update_session
rotate_session-Yields env id full meta remember_me db s found live =
    lift-Yields _ _ _ db (λ expires _.
      bind-Yields _ (λ pair after. after ≡ db) _ _ db
        (sign_token_pair-Yields env full id (refresh_ttl env.jwt remember_me) db)
        (λ pair after same. write-Yields _ _ _ after (
          Yields-map _ _
            (hand_out env full pair expires
              (update_session id (rotated_session env meta pair expires) after))
            (hand_out-Yields env full pair expires
              (update_session id (rotated_session env meta pair expires) after))
            (λ r later (token, sessions). (
              rotated_session env meta pair expires s,
              found_after id (rotated_session env meta pair expires) db after later s (λ s. refl)
                  same sessions found,
              ap env.hash_token (sym token),
              refl,
              live,
            )))))

find-own :
    (id : ℕ) (db : AuthDb) (s : Session)
    → find_session id db ≡ some s
    → find_session s.id db ≡ some s
find-own id db s found =
    subst (λ i. find_session i db ≡ some s) (sym (find-key (λ s. s.id) id db.sessions found)) found

check_reuse-Yields :
    (env : AuthEnv) (token : ℕ) (s : Session) (db : AuthDb)
    → Yields
        (λ _ after. (after ≡ db) × ((env.hash_token token == s.refresh_token_hash) ≡ true))
        (check_reuse env token s db)
check_reuse-Yields env token s db =
    elim (Bool-cases (env.hash_token token == s.refresh_token_hash)) [
      | inl e ↦ rw e (refl, refl)
      | inr e ↦ rw e tt
    ]

-- What a refresh token that is answered was for, and what is left.
pub record IsRefreshed (env : AuthEnv) (token : ℕ) (db : AuthDb) (r : AuthTokenResult)
    (after : AuthDb) : Type 0 where
  pub payload : JwtRefreshPayload
  pub verified : env.verify_refresh token env.now ≡ some payload
  pub session : Session
  pub found : find_session payload.session_id db ≡ some session
  pub live : session.revoked_at ≡ none
  pub unexpired : ltb session.expires_at env.now ≡ false
  pub current : env.hash_token token ≡ session.refresh_token_hash
  pub rotated : HoldsToken env payload.session_id session.user_id r after

refresh-Yields :
    (env : AuthEnv) (token : ℕ) (meta : RequestMeta) (db : AuthDb)
    → Yields (IsRefreshed env token db) (refresh env token meta db)
unfolding refresh
refresh-Yields env token meta db = lift-Yields _ _ _ db (λ payload verified.
    read-Yields _ _ _ db (λ s checked.
      let (found, live, unexpired) = check_session-ok env.now _ s checked in
      bind-Yields _ _ _ _ db (check_reuse-Yields env token s db) (λ _ after (same, current).
        read-Yields _ _ _ after (λ user _. read-Yields _ _ _ after (λ role _.
          read-Yields _ _ _ after (λ organization _. lift-Yields _ _ _ after (λ _ _.
            Yields-map _ (IsRefreshed env token db) _
              (rotate_session-Yields env s.id
                (record { user = user; role = role; organization = organization }) meta
                s.is_remember_me after s
                (ap (find_session s.id) same ∙ find-own payload.session_id db s found) live)
              (λ r later holds. record {
                payload = payload;
                verified = or_throw-some _ _ payload verified;
                session = s;
                found = found;
                live = live;
                unexpired = unexpired;
                current = (==_iff _ _).0 current;
                rotated =
                    subst (λ i. HoldsToken env i s.user_id r later)
                      (find-key (λ s. s.id) payload.session_id db.sessions found) holds;
              }))))))))

-- A refresh that answers was for a session that is live and that this very token was issued for, and
-- leaves the session with the new token.
pub refresh-IsRefreshed :
    (env : AuthEnv) (token : ℕ) (meta : RequestMeta) (db : AuthDb) (r : AuthTokenResult)
    → (refresh env token meta db).0 ≡ ok r
    → IsRefreshed env token db r (refresh env token meta db).1
refresh-IsRefreshed env token meta db r h =
    Yields-ok (IsRefreshed env token db) _ _ r (refresh-Yields env token meta db) h

pub refresh-reused :
    (env : AuthEnv) (token : ℕ) (meta : RequestMeta) (db : AuthDb) (payload : JwtRefreshPayload)
    (s : Session)
    → env.verify_refresh token env.now ≡ some payload
    → check_session env.now (find_session payload.session_id db) ≡ ok s
    → (env.hash_token token == s.refresh_token_hash) ≡ false
    → refresh env token meta db ≡ (
      err (unauthorized token_reused),
      update_session s.id (λ s. record s { revoked_at = some env.now }) db,
    )
unfolding refresh ◌>>=◌
refresh-reused env token meta db payload s verified checked reused =
    rw (verified, refresh) (rw (checked, refresh) (rw (reused, refresh) refl))
