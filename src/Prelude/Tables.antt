-- ===== src/Prelude/Tables.antt =====
-- A table as the list of its rows, oldest first, with a primary key read off each row.
use Prim.Native.Nat.{ℕ}
use mathlib.Core.Path.{◌≡◌, refl, ap, sym, subst}
use mathlib.Core.Logic.{◌≢◌, inl, inr}
use mathlib.Core.Bool.{Bool, true, false}
use mathlib.Core.Option.{Option, none, some}
use mathlib.Core.Option
use mathlib.Core.List.{List, [], ◌∷◌, map}
use native.Mathlib.Omega.{arith}
use sentinel_desk.Prelude.Tests.{◌==◌, if◌then◌else◌, Bool-cases, ==_self}
use sentinel_desk.Prelude.Lists.{select, All, IsDistinct, includes}

module _ {ℓ} {A : Type ℓ} (key : A → ℕ) where
  -- `findUnique({ where: { id } })`
  abbrev pub find : ℕ → List A → Option A
  find k [] = none
  find k (x ∷ xs) = let rest = find k xs in if key x == k then some x else rest

  -- `update({ where: { id }, data })`
  abbrev pub modify : ℕ → (A → A) → List A → List A
  modify k f [] = []
  modify k f (x ∷ xs) = let rest = modify k f xs in if key x == k then f x ∷ xs else x ∷ rest

  pub find-key : (k : ℕ) (xs : List A) {a : A} → find k xs ≡ some a → key a ≡ k
  find-key k [] h = cc
  find-key k (x ∷ xs) {a} h = ground (arith, find-key k xs {a = a})

  -- The row that was updated is found as updated.
  pub find-modify_self :
      (k : ℕ) (f : A → A) (xs : List A)
      → ((a : A) → key (f a) ≡ key a)
      → find k (modify k f xs) ≡ Option.map f (find k xs)
  find-modify_self k f [] h = refl
  find-modify_self k f (x ∷ xs) h = ground (arith, h x, find-modify_self k f xs h)

  pub find-modify_ne :
      (k j : ℕ) (f : A → A) (xs : List A)
      → ((a : A) → key (f a) ≡ key a)
      → j ≢ k
      → find j (modify k f xs) ≡ find j xs
  find-modify_ne k j f [] h ne = refl
  find-modify_ne k j f (x ∷ xs) h ne = ground (arith, h x, find-modify_ne k j f xs h)

  -- An update keeps what a part of the row that it does not write says of every row.
  pub map-modify {κ} :
      {B : Type κ} (g : A → B) (k : ℕ) (f : A → A) (xs : List A)
      → ((a : A) → g (f a) ≡ g a)
      → map g (modify k f xs) ≡ map g xs
  map-modify g k f [] h = refl
  map-modify g k f (x ∷ xs) h = elim (Bool-cases (key x == k)) [
    | inl e ↦ rw (e, h x)
    | inr e ↦ rw (e, map-modify g k f xs h)
  ]

  -- A property of rows that the update keeps.
  pub modify-All {κ} :
      (P : A → Type κ) (k : ℕ) (f : A → A) (xs : List A)
      → ((a : A) → key a ≡ k → P a → P (f a))
      → All P xs
      → All P (modify k f xs)
  modify-All P k f [] h all = all
  modify-All P k f (x ∷ xs) h all = elim (Bool-cases (key x == k)) [
    | inl e ↦ rw e (h x (ground arith) all.0, all.1)
    | inr e ↦ rw e (all.0, modify-All P k f xs h all.1)
  ]

  -- Only the row with the key is written, so the rows outside a selection that does not hold it
  -- are unchanged.
  pub select-modify :
      (p : A → Bool) (k : ℕ) (f : A → A) (xs : List A) {a : A}
      → find k xs ≡ some a
      → p a ≡ false
      → p (f a) ≡ false
      → select p (modify k f xs) ≡ select p xs
  select-modify p k f [] h n m = refl
  select-modify p k f (x ∷ xs) {a} h n m = elim (Bool-cases (key x == k)) [
    | inl e ↦ ground arith
    | inr e ↦ ground (arith, select-modify p k f xs {a = a})
  ]

  pub modify-none : (k : ℕ) (f : A → A) (xs : List A) → find k xs ≡ none → modify k f xs ≡ xs
  modify-none k f [] h = refl
  modify-none k f (x ∷ xs) h = ground (arith, modify-none k f xs)

  find_hit :
      (k : ℕ) (x : A) (xs : List A) (a : A) → (key x == k) ≡ true → find k (x ∷ xs) ≡ some a → x ≡ a
  find_hit k x xs a e h = ground arith

  find_miss :
      (k : ℕ) (x : A) (xs : List A) (a : A)
      → (key x == k) ≡ false
      → find k (x ∷ xs) ≡ some a
      → find k xs ≡ some a
  find_miss k x xs a e h = ground arith

  -- An update is what it does to the row that it finds.
  pub modify-All_found {κ} :
      (P : A → Type κ) (k : ℕ) (f : A → A) (xs : List A) (a : A)
      → find k xs ≡ some a
      → P (f a)
      → All P xs
      → All P (modify k f xs)
  modify-All_found P k f [] a h p all = all
  modify-All_found P k f (x ∷ xs) a h p all = elim (Bool-cases (key x == k)) [
    | inl e ↦ rw e (subst (λ y. P (f y)) (sym (find_hit k x xs a e h)) p, all.1)
    | inr e ↦ rw e (all.0, modify-All_found P k f xs a (find_miss k x xs a e h) p all.1)
  ]

  pub map-modify_found {κ} :
      {B : Type κ} (g : A → B) (k : ℕ) (f : A → A) (xs : List A) (a : A)
      → find k xs ≡ some a
      → g (f a) ≡ g a
      → map g (modify k f xs) ≡ map g xs
  map-modify_found g k f [] a h e = refl
  map-modify_found g k f (x ∷ xs) a h e = elim (Bool-cases (key x == k)) [
    | inl hit ↦
        rw hit
          (ap (λ b. b ∷ map g xs) (subst (λ y. g (f y) ≡ g y) (sym (find_hit k x xs a hit h)) e))
    | inr miss ↦ rw (miss, map-modify_found g k f xs a (find_miss k x xs a miss h) e)
  ]

  pub modify_congr :
      (k : ℕ) (f g : A → A) (xs : List A) (a : A)
      → find k xs ≡ some a
      → f a ≡ g a
      → modify k f xs ≡ modify k g xs
  modify_congr k f g [] a h e = refl
  modify_congr k f g (x ∷ xs) a h e = elim (Bool-cases (key x == k)) [
    | inl hit ↦ rw hit (ap (λ y. y ∷ xs) (subst (λ y. f y ≡ g y) (sym (find_hit k x xs a hit h)) e))
    | inr miss ↦ rw miss (ap (λ ys. x ∷ ys) (modify_congr k f g xs a (find_miss k x xs a miss h) e))
  ]

  pub modify_self : (k : ℕ) (xs : List A) → modify k (λ a. a) xs ≡ xs
  modify_self k [] = refl
  modify_self k (x ∷ xs) = ground (arith, modify_self k xs)

  pub modify-modify :
      (k : ℕ) (f g : A → A) (xs : List A)
      → ((a : A) → key (f a) ≡ key a)
      → modify k g (modify k f xs) ≡ modify k (λ a. g (f a)) xs
  modify-modify k f g [] h = refl
  modify-modify k f g (x ∷ xs) h = ground (arith, h x, modify-modify k f g xs h)

  pub All-find {κ} :
      (P : A → Type κ) (k : ℕ) (xs : List A) (a : A) → All P xs → find k xs ≡ some a → P a
  All-find P k [] a all h = cc
  All-find P k (x ∷ xs) a all h = elim (Bool-cases (key x == k)) [
    | inl e ↦ subst P (find_hit k x xs a e h) all.0
    | inr e ↦ All-find P k xs a all.1 (find_miss k x xs a e h)
  ]

  find-includes :
      (k : ℕ) (xs : List A) {a : A} → find k xs ≡ some a → includes k (map key xs) ≡ true
  find-includes k [] h = cc
  find-includes k (x ∷ xs) {a} h = elim (Bool-cases (key x == k)) [
    | inl e ↦ ground arith
    | inr e ↦ ground (arith, find-includes k xs {a = a} (find_miss k x xs a e h))
  ]

-- Among rows with different keys, a row that another column finds is found by its key.
pub find-found {ℓ} :
    {A : Type ℓ} (key other : A → ℕ) (k : ℕ) (xs : List A) (a : A)
    → IsDistinct (map key xs)
    → find other k xs ≡ some a
    → find key (key a) xs ≡ some a
find-found key other k [] a distinct h = cc
find-found key other k (x ∷ xs) a distinct h = elim (Bool-cases (other x == k)) [
  | inl e ↦
      subst (λ y. find key (key y) (x ∷ xs) ≡ some y) (find_hit other k x xs a e h)
        (rw (==_self (key x)) refl)
  | inr e ↦
      let later = find-found key other k xs a distinct.1 (find_miss other k x xs a e h) in
      elim (Bool-cases (key x == key a)) [
        | inl hit ↦ ground (arith, find-includes key (key a) xs {a = a} later, distinct.0)
        | inr miss ↦ rw miss later
      ]
]

-- Among rows with different keys, an update by key of a row that another column finds is found there.
pub find-modify_other {ℓ} :
    {A : Type ℓ} (key other : A → ℕ) (k : ℕ) (f : A → A) (xs : List A) (a : A)
    → IsDistinct (map key xs)
    → other (f a) ≡ other a
    → find other k xs ≡ some a
    → find other k (modify key (key a) f xs) ≡ some (f a)
find-modify_other key other k f [] a distinct same h = cc
find-modify_other key other k f (x ∷ xs) a distinct same h = elim (Bool-cases (other x == k)) [
  | inl e ↦
      let hit = find_hit other k x xs a e h in
      subst (λ y. find other k (modify key (key y) f (x ∷ xs)) ≡ some (f y)) hit
        (rw (==_self (key x))
          (rw (ap (λ i. i == k) (subst (λ y. other (f y) ≡ other y) (sym hit) same), e) refl))
  | inr e ↦
      let found = find_miss other k x xs a e h in
      let later = find-modify_other key other k f xs a distinct.1 same found in
      elim (Bool-cases (key x == key a)) [
        | inl clash ↦ ground (
          arith,
          find-includes key (key a) xs {a = a} (find-found key other k xs a distinct.1 found),
          distinct.0,
        )
        | inr miss ↦ rw miss (rw e later)
      ]
]
