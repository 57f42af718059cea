-- ===== src/Accounts/Replay.antt =====
-- A refresh token that was used is used again (apps/backend/src/auth/auth.service.ts: refresh).
use mathlib.Core.Option
use sentinel_desk.Prelude.{
  ℕ, true, false, ◌≡◌, ◌≢◌, ◌∙◌, ap, sym, subst, refl, inl, inr, ◌⊎◌, none, some, Result, ok, err,
  unauthorized, token_reused, session_over, find-modify_self, find-key, ◌==◌, ==_iff, ltb,
  Bool-cases,
}
use sentinel_desk.Accounts.Schema.{Session}
use sentinel_desk.Accounts.Store.{AuthDb, AuthEnv, find_session, update_session, JwtRefreshPayload}
use sentinel_desk.Accounts.Tokens.{RequestMeta, AuthTokenResult}
use sentinel_desk.Accounts.Sessions.{refresh, check_session}
use sentinel_desk.Accounts.Revoked.{is_over, refresh-over}
use sentinel_desk.Accounts.Rotation.{refresh-IsRefreshed, refresh-reused}

checked_or_not :
    (now : ℕ) (s : Session)
    → s.revoked_at ≡ none
    → (check_session now (some s) ≡ ok s)
      ⊎ (check_session now (some s) ≡ err (unauthorized session_over))
checked_or_not now s live = elim (Bool-cases (ltb s.expires_at now)) [
  | inl e ↦ inr (rw live (rw e refl))
  | inr e ↦ inl (rw live (rw e refl))
]

revoked_is_over :
    (now : ℕ) (id : ℕ) (db : AuthDb) (s : Session)
    → find_session id db ≡ some s
    → is_over (find_session id (update_session id (λ s. record s { revoked_at = some now }) db))
      ≡ true
unfolding update_session
revoked_is_over now id db s found =
    let revoked : Session → Session = λ s. record s { revoked_at = some now } in
    ap is_over (
      find-modify_self (λ s. s.id) id revoked db.sessions (λ s. refl)
      ∙ ap (Option.map revoked) found)

differ : (m n k : ℕ) → m ≢ n → k ≡ n → (m == k) ≡ false
differ m n k ne e = elim (Bool-cases (m == k)) [
  | inl hit ↦ absurd (ne ((==_iff m k).0 hit ∙ e))
  | inr miss ↦ miss
]

-- After a refresh has been answered, the token that it was asked with, whose hash is not that of the
-- token that it answered, is refused when it is presented again: the session is revoked by that,
-- unless it has expired meanwhile, and then nothing changes.
pub refresh-replayed :
    (env later : AuthEnv) (token : ℕ) (meta again : RequestMeta) (db : AuthDb) (r : AuthTokenResult)
    → (refresh env token meta db).0 ≡ ok r
    → later.verify_refresh token later.now ≡ env.verify_refresh token env.now
    → later.hash_token token ≢ env.hash_token r.refresh_token
    → (payload : JwtRefreshPayload) × (env.verify_refresh token env.now ≡ some payload)
      × (((refresh later token again (refresh env token meta db).1).0
              ≡ err (unauthorized token_reused))
            × (is_over (
                  find_session payload.session_id
                    (refresh later token again (refresh env token meta db).1).1)
                ≡ true)
          ⊎ (refresh later token again (refresh env token meta db).1
              ≡ (err (unauthorized session_over), (refresh env token meta db).1)))
refresh-replayed env later token meta again db r h same ne =
    let past = refresh-IsRefreshed env token meta db r h in
    let after = (refresh env token meta db).1 in
    let (t, found, hash, owner, live) = past.rotated in
    let verified : later.verify_refresh token later.now ≡ some past.payload =
      same ∙ past.verified in
    (
      past.payload,
      past.verified,
      elim (checked_or_not later.now t live) [
        | inl checked ↦
            let whole =
              refresh-reused later token again after past.payload t verified
                (ap (check_session later.now) found ∙ checked)
                (differ (later.hash_token token) (env.hash_token r.refresh_token)
                  t.refresh_token_hash ne hash) in
            let key : t.id ≡ past.payload.session_id =
              find-key (λ s. s.id) past.payload.session_id after.sessions found in
            inl (
              ap (λ p. p.0) whole,
              subst
                  (λ (p : Result AuthTokenResult × AuthDb).
                    is_over (find_session past.payload.session_id p.1) ≡ true)
                  (sym whole)
                  (subst
                    (λ i.
                      is_over (
                        find_session past.payload.session_id
                          (update_session i (λ s. record s { revoked_at = some later.now }) after))
                      ≡ true)
                    (sym key) (revoked_is_over later.now past.payload.session_id after t found)),
            )
        | inr over ↦ inr (
            refresh-over later token again after past.payload verified
              (ap (check_session later.now) found ∙ over))
      ],
    )
