-- ===== src/Accounts/Runs.antt =====
-- What holds after any calls: live sessions belong to active users, revoked sessions stay revoked
-- (apps/backend/src/auth/auth.service.ts, apps/backend/src/users/users.service.ts,
-- apps/backend/src/auth/strategies/jwt.strategy.ts).
use mathlib.Core.Option
use mathlib.Core.List.{map-append}
use sentinel_desk.Prelude.{
  ℕ, Bool, true, false, ◌&&◌, ◌||◌, ◌≡◌, ◌∙◌, ap, sym, subst, refl, inl, inr, Option, none, some,
  List, [], ◌∷◌, ◌++◌, map, is_some, is_none, find, modify, find-modify_self, find-modify_ne, ◌⊎◌,
  map-modify, All, All-append, modify-All, IsDistinct, includes, arith, ◌==◌, ◌≢◌, if◌then◌else◌,
  Bool-cases, Option-cases,
}
use sentinel_desk.Accounts.Schema.{User, Session}
use sentinel_desk.Accounts.Store.{AuthDb, AuthEnv}
use sentinel_desk.Accounts.Tokens.{revoke_matching}
use sentinel_desk.Accounts.Calls.{Call, run_calls}
use sentinel_desk.Accounts.Effects.{
  is_active, KeepsSession, KeepsActive, Effect, quiet, opened, session_written, sessions_revoked,
  user_written, user_suspended, user_added, followed_by,
}
use sentinel_desk.Accounts.Effects.Handle.{perform-Effect}

-- A session that is over, or whose user is active.
abbrev pub is_settled : List User → Session → Bool
is_settled users s = is_some s.revoked_at || is_active (find (λ u. u.id) s.user_id users)

abbrev pub AreSettled : List User → List Session → Type 0
AreSettled users sessions =
    IsDistinct (map (λ u. u.id) users) × All (λ s. is_settled users s ≡ true) sessions

-- Users have different keys, and every session that is not revoked belongs to an active user.
abbrev pub IsSettled : AuthDb → Type 0
IsSettled db = AreSettled db.users db.sessions

All-weaken :
    {A : Type 0} (P Q : A → Type 0) (xs : List A) → ((x : A) → P x → Q x) → All P xs → All Q xs
All-weaken P Q [] h all = tt
All-weaken P Q (x ∷ xs) h all = (h x all.0, All-weaken P Q xs h all.1)

-- What holds of the revoked rows and of the others.
pub revoke_matching-All :
    (Q P : Session → Type 0) (p : Session → Bool) (now : ℕ) (ss : List Session)
    → ((s : Session)
        → (p s && is_none s.revoked_at) ≡ true
        → Q s
        → P (record s { revoked_at = some now }))
    → ((s : Session) → (p s && is_none s.revoked_at) ≡ false → Q s → P s)
    → All Q ss
    → All P (revoke_matching p now ss)
revoke_matching-All Q P p now [] hit miss all = tt
revoke_matching-All Q P p now (s ∷ ss) hit miss all =
    elim (Bool-cases (p s && is_none s.revoked_at)) [
      | inl e ↦ rw e (hit s e all.0, revoke_matching-All Q P p now ss hit miss all.1)
      | inr e ↦ rw e (miss s e all.0, revoke_matching-All Q P p now ss hit miss all.1)
    ]

or_right : (x y : Bool) → y ≡ true → (x || y) ≡ true
or_right true y h = refl
or_right false y h = h

settled_over :
    (users : List User) (s : Session) → is_some s.revoked_at ≡ true → is_settled users s ≡ true
settled_over users s h = rw h refl

-- A session stays settled when its user's account only becomes active.
settled_mono :
    (users after : List User) (s : Session)
    → (is_active (find (λ u. u.id) s.user_id users) ≡ true
        → is_active (find (λ u. u.id) s.user_id after) ≡ true)
    → is_settled users s ≡ true
    → is_settled after s ≡ true
settled_mono users after s h settled = elim (Bool-cases (is_some s.revoked_at)) [
  | inl over ↦ rw over refl
  | inr live ↦
      rw live
        (h (subst (λ b. (b || is_active (find (λ u. u.id) s.user_id users)) ≡ true) live settled))
]

pub same_key_or_not : (j k : ℕ) → (j ≡ k) ⊎ (j ≢ k)
same_key_or_not j k = elim (Bool-cases (j == k)) [
  | inl e ↦ inl (ground arith)
  | inr e ↦ inr (ground arith)
]

active-map :
    (f : User → User)
    → KeepsActive f
    → (o : Option User) → is_active o ≡ true
    → is_active (Option.map f o) ≡ true
active-map f keeps none h = cc
active-map f keeps (some u) h = keeps.still_active u h

active-modify :
    (j k : ℕ) (f : User → User) (users : List User)
    → KeepsActive f
    → is_active (find (λ u. u.id) j users) ≡ true
    → is_active (find (λ u. u.id) j (modify (λ u. u.id) k f users)) ≡ true
active-modify j k f users keeps h = elim (same_key_or_not j k) [
  | inl e ↦
      subst (λ i. is_active (find (λ u. u.id) i (modify (λ u. u.id) k f users)) ≡ true) (sym e)
        (ap is_active (find-modify_self (λ u. u.id) k f users keeps.same_id)
          ∙ active-map f keeps (find (λ u. u.id) k users)
              (subst (λ i. is_active (find (λ u. u.id) i users) ≡ true) e h))
  | inr ne ↦ ap is_active (find-modify_ne (λ u. u.id) k j f users keeps.same_id ne) ∙ h
]

active-append :
    (j : ℕ) (users : List User) (u : User)
    → is_active (find (λ u. u.id) j users) ≡ true
    → is_active (find (λ u. u.id) j (users ++ u ∷ [])) ≡ true
active-append j [] u h = cc
active-append j (v ∷ users) u h = elim (Bool-cases (v.id == j)) [
  | inl e ↦
      rw e (subst (λ b. is_active (if b then some v else find (λ u. u.id) j users) ≡ true) e h)
  | inr e ↦ rw e (
      active-append j users u
        (subst (λ b. is_active (if b then some v else find (λ u. u.id) j users) ≡ true) e h))
]

includes-append :
    (k : ℕ) (xs : List ℕ) (x : ℕ)
    → includes k xs ≡ false
    → (k == x) ≡ false
    → includes k (xs ++ x ∷ []) ≡ false
includes-append k [] x h n = ground arith
includes-append k (y ∷ xs) x h n = ground (arith, includes-append k xs x)

keyed-append :
    (users : List User) (u : User)
    → IsDistinct (map (λ u. u.id) users)
    → find (λ u. u.id) u.id users ≡ none
    → IsDistinct (map (λ u. u.id) (users ++ u ∷ []))
keyed-append [] u distinct free = (refl, tt)
keyed-append (v ∷ users) u distinct free = elim (Bool-cases (v.id == u.id)) [
  | inl e ↦ ground arith
  | inr e ↦ (
    subst (λ ids. includes v.id ids ≡ false) (sym (map-append (λ u. u.id) users (u ∷ [])))
        (includes-append v.id (map (λ u. u.id) users) u.id distinct.0 e),
    keyed-append users u distinct.1 (ground arith),
  )
]

revoked_of :
    (s : Session) (id : ℕ)
    → s.user_id ≡ id
    → ((s.user_id == id) && is_none s.revoked_at) ≡ false
    → is_some s.revoked_at ≡ true
revoked_of s id e h = elim (Option-cases s.revoked_at) [
  | inl live ↦ ground arith
  | inr (t, over) ↦ ap is_some over
]

written_settled :
    (f : Session → Session)
    → KeepsSession f
    → (users : List User) (s : Session) → is_settled users s ≡ true
    → is_settled users (f s) ≡ true
written_settled f keeps users s settled = elim (Bool-cases (is_some s.revoked_at)) [
  | inl over ↦ settled_over users (f s) (keeps.still_revoked s over)
  | inr live ↦
      subst (λ i. (is_some (f s).revoked_at || is_active (find (λ u. u.id) i users)) ≡ true)
        (sym (keeps.same_owner s))
        (or_right (is_some (f s).revoked_at) _
          (subst (λ b. (b || is_active (find (λ u. u.id) s.user_id users)) ≡ true) live settled))
]

suspended_settled :
    (id now : ℕ) (f : User → User) (users : List User)
    → ((u : User) → (f u).id ≡ u.id)
    → (s : Session) → ((s.user_id == id) && is_none s.revoked_at) ≡ false
    → is_settled users s ≡ true
    → is_settled (modify (λ u. u.id) id f users) s ≡ true
suspended_settled id now f users same_id s other settled = elim (same_key_or_not s.user_id id) [
  | inl e ↦ settled_over (modify (λ u. u.id) id f users) s (revoked_of s id e other)
  | inr ne ↦
      settled_mono users (modify (λ u. u.id) id f users) s
        (λ live. ap is_active (find-modify_ne (λ u. u.id) id s.user_id f users same_id ne) ∙ live)
        settled
]

pub Effect-IsSettled : (a b : AuthDb) → Effect a b → IsSettled a → IsSettled b
Effect-IsSettled a b (quiet us ss) h = rw (us, ss) h
Effect-IsSettled a b (opened s live us ss) h =
    rw (us, ss)
      (h.0, All-append _ a.sessions (s ∷ []) h.1 (or_right (is_some s.revoked_at) _ live, tt))
Effect-IsSettled a b (session_written id f keeps us ss) h =
    rw (us, ss)
      (
        h.0,
        modify-All (λ s. s.id) _ id f a.sessions
            (λ s _ settled. written_settled f keeps a.users s settled) h.1,
      )
Effect-IsSettled a b (sessions_revoked p now us ss) h =
    rw (us, ss)
      (h.0, revoke_matching-All _ _ p now a.sessions (λ s _ _. refl) (λ s _ settled. settled) h.1)
Effect-IsSettled a b (user_written id f keeps us ss) h =
    rw (us, ss)
      (
        subst IsDistinct (sym (map-modify (λ u. u.id) (λ u. u.id) id f a.users keeps.same_id)) h.0,
        All-weaken _ _ a.sessions
            (λ s. settled_mono a.users _ s (active-modify s.user_id id f a.users keeps)) h.1,
      )
Effect-IsSettled a b (user_suspended id f now same_id us ss) h =
    rw (us, ss)
      (
        subst IsDistinct (sym (map-modify (λ u. u.id) (λ u. u.id) id f a.users same_id)) h.0,
        revoke_matching-All _ _ (λ s. s.user_id == id) now a.sessions (λ s _ _. refl)
            (suspended_settled id now f a.users same_id) h.1,
      )
Effect-IsSettled a b (user_added u free us ss) h =
    rw (us, ss)
      (
        keyed-append a.users u h.0 free,
        All-weaken _ _ a.sessions
            (λ s. settled_mono a.users _ s (λ live. active-append s.user_id a.users u live)) h.1,
      )
Effect-IsSettled a c (followed_by {b = b} e f) h = Effect-IsSettled b c f (Effect-IsSettled a b e h)

-- Whatever calls are made, in any order and at any instants: if every session that is not revoked
-- belongs to an active user, and no two users have the same key, then it is so afterwards.
pub run_calls-IsSettled :
    (calls : List (AuthEnv × Call)) (db : AuthDb) → IsSettled db → IsSettled (run_calls calls db)
unfolding run_calls
run_calls-IsSettled [] db h = h
run_calls-IsSettled ((env, call) ∷ rest) db h =
    run_calls-IsSettled rest _ (Effect-IsSettled db _ (perform-Effect env call db h.0) h)
