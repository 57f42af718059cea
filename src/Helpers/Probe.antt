-- ===== src/Helpers/Probe.antt =====
-- The search for a free name among numbered candidates, as the loops of
-- apps/backend/src/auth/auth.service.ts (signup) and
-- apps/backend/src/knowledge-base/knowledge-base.service.ts (uniqueSlug) do it.
use sentinel_desk.Prelude.{
  ℕ, zero, suc, ◌+◌, ◌≤◌, ◌<◌, ◌≢◌, ◌≡◌, refl, sym, ◌∙◌, inl, inr, Bool, true, false, Option, none,
  some, List, [], ◌∷◌, Text, text_eq, any, length, if◌then◌else◌, arith, Bool-cases,
}

-- `while (taken(candidate)) candidate = next`, for `fuel` rounds; the k-th candidate is `f k`.
abbrev pub probe : (Text → Bool) → (ℕ → Text) → ℕ → ℕ → Option Text
probe taken f zero k = none
probe taken f (suc fuel) k =
    let later = probe taken f fuel (suc k) in if taken (f k) then later else some (f k)

abbrev pub is_listed : List Text → Text → Bool
is_listed names s = any (λ n. text_eq n s) names

pub text_eq→path : (s t : Text) → text_eq s t ≡ true → s ≡ t
text_eq→path [] [] h = refl
text_eq→path [] (_ ∷ _) h = cc
text_eq→path (_ ∷ _) [] h = cc
text_eq→path (a ∷ s) (b ∷ t) h = ground (arith, text_eq→path s t)

pub text_eq_self : (s : Text) → text_eq s s ≡ true
text_eq_self [] = refl
text_eq_self (c ∷ s) = ground (arith, text_eq_self s)

-- The name that the search ends with is free.
pub probe-free :
    (taken : Text → Bool) (f : ℕ → Text) (fuel k : ℕ) (s : Text)
    → probe taken f fuel k ≡ some s
    → taken s ≡ false
probe-free taken f zero k s h = cc
probe-free taken f (suc fuel) k s h = elim (Bool-cases (taken (f k))) [
  | inl e ↦ probe-free taken f fuel (suc k) s (ground arith)
  | inr e ↦ ground arith
]

-- The names without one of them.
abbrev pub without : Text → List Text → List Text
without s [] = []
without s (n ∷ ns) = let rest = without s ns in if text_eq n s then rest else n ∷ rest

length-without : (s : Text) (ns : List Text) → length (without s ns) ≤ length ns
length-without s [] = omega arith
length-without s (n ∷ ns) = ground (arith, length-without s ns)

length-without_listed :
    (s : Text) (ns : List Text) → is_listed ns s ≡ true → length (without s ns) < length ns
length-without_listed s [] h = cc
length-without_listed s (n ∷ ns) h = elim (Bool-cases (text_eq n s)) [
  | inl e ↦ rw e (omega (arith, length-without s ns))
  | inr e ↦ rw e (omega (arith, length-without_listed s ns (ground arith)))
]

is_listed-without :
    (s t : Text) (ns : List Text)
    → s ≢ t
    → is_listed ns t ≡ true
    → is_listed (without s ns) t ≡ true
is_listed-without s t [] ne h = cc
is_listed-without s t (n ∷ ns) ne h = elim (Bool-cases (text_eq n s)) [
  | inl e ↦ elim (Bool-cases (text_eq n t)) [
    | inl both ↦ absurd (ne (sym (text_eq→path n s e) ∙ text_eq→path n t both))
    | inr other ↦ rw e (is_listed-without s t ns ne (ground arith))
  ]
  | inr e ↦ elim (Bool-cases (text_eq n t)) [
    | inl hit ↦ rw e (rw hit refl)
    | inr other ↦ rw e (rw other (is_listed-without s t ns ne (ground arith)))
  ]
]

-- Among candidates that differ, one more than there are names, a free one is found.
pub probe-finds :
    (taken : Text → Bool) (f : ℕ → Text) (fuel k : ℕ) (names : List Text)
    → ((i j : ℕ) → i < j → j < k + fuel → f i ≢ f j)
    → ((j : ℕ) → k ≤ j → j < k + fuel → taken (f j) ≡ true → is_listed names (f j) ≡ true)
    → length names < fuel
    → (s : Text) × (probe taken f fuel k ≡ some s)
probe-finds taken f zero k names differ listed short = absurd (omega (arith, short))
probe-finds taken f (suc fuel) k names differ listed short = elim (Bool-cases (taken (f k))) [
  | inl e ↦ rw e (
      probe-finds taken f fuel (suc k) (without (f k) names)
        (λ i j lt bound. differ i j lt (omega (arith, bound)))
        (λ j le bound hit.
          is_listed-without (f k) (f j) names
            (differ k j (omega (arith, le)) (omega (arith, bound)))
            (listed j (omega (arith, le)) (omega (arith, bound)) hit))
        (omega (
          arith,
          short,
          length-without_listed (f k) names (listed k (omega arith) (omega arith) e),
        )))
  | inr e ↦ (f k, rw e refl)
]
