-- ===== src/Helpers/Slug.antt =====
-- apps/backend/src/common/utils/slug.util.ts: the names that stand in addresses.
use sentinel_desk.Prelude.{
  ℕ, zero, suc, ◌+◌, ◌-◌, ◌≤◌, ◌≡◌, refl, subst, inl, inr, Bool, true, false, ◌&&◌, ◌||◌, [], ◌∷◌,
  ◌++◌, Text, leb, ltb, ◌==◌, if◌then◌else◌, arith, All, select, length, Bool-cases,
}
use sentinel_desk.Helpers.Characters.{is_slug_character, is_space, trim, slice}

-- `toLowerCase` of one character, as far as ASCII letters go: two other characters have them in their
-- lower case, and the rest is outside of ASCII in both cases.
abbrev pub lower_case : ℕ → Text
lower_case c =
    if leb b'A' c && leb c b'Z'
    then (c + 32) ∷ []
    else if c == 304
    then (b'i' ∷ 775 ∷ [])
    else if c == 8490
    then (b'k' ∷ [])
    else (c ∷ [])

abbrev pub to_lower_case : Text → Text
to_lower_case [] = []
to_lower_case (c ∷ s) = lower_case c ++ to_lower_case s

abbrev pub is_dash : ℕ → Bool
is_dash c = c == b'-'

-- `s.replace(/[...]+/g, r)`: a run of the class becomes one `r`. The flag says that the text before
-- ends inside a run.
abbrev pub replace_runs : (ℕ → Bool) → ℕ → Bool → Text → Text
replace_runs p r inside [] = []
replace_runs p r inside (c ∷ s) =
    let within = replace_runs p r true s in
    let beyond = replace_runs p r false s in
    if p c then (if inside then within else r ∷ within) else c ∷ beyond

-- `s.replace(/^-|-$/g, '')`
abbrev pub strip_start : Text → Text
strip_start [] = []
strip_start (c ∷ s) = if is_dash c then s else c ∷ s

abbrev pub strip_end : Text → Text
strip_end [] = []
strip_end (c ∷ []) = if is_dash c then [] else c ∷ []
strip_end (c ∷ d ∷ s) = c ∷ strip_end (d ∷ s)

-- `slugify`
unfoldable pub slugify : Text → Text
slugify input =
    let trimmed = trim (to_lower_case input) in
    let kept = select (λ c. is_slug_character c || is_space c || is_dash c) trimmed in
    let joined = replace_runs is_space b'-' false kept in
    slice 60 (strip_end (strip_start (replace_runs is_dash b'-' false joined)))

-- `chars[i]` of `randomSuffix`
abbrev pub suffix_character : ℕ → ℕ
suffix_character i = if ltb i 26 then b'a' + i else b'0' + (i - 26)

-- `randomSuffix(length)`, where the k-th draw is `Math.floor(Math.random() * 36)`.
abbrev pub random_suffix : (ℕ → ℕ) → ℕ → ℕ → Text
random_suffix draw from zero = []
random_suffix draw from (suc n) = suffix_character (draw from) ∷ random_suffix draw (suc from) n

abbrev pub starts_with_dash : Text → Bool
starts_with_dash [] = false
starts_with_dash (c ∷ s) = is_dash c

-- No two dashes side by side.
abbrev pub HasSingleDashes : Text → Type 0
HasSingleDashes [] = Unit
HasSingleDashes (c ∷ s) = ((is_dash c && starts_with_dash s) ≡ false) × HasSingleDashes s

abbrev pub may_stand : ℕ → Bool
may_stand c = is_slug_character c || is_dash c

-- What an address needs of a slug.
pub record IsSlug (s : Text) : Type 0 where
  pub allowed : All (λ c. may_stand c ≡ true) s
  pub single_dashes : HasSingleDashes s
  pub no_leading_dash : starts_with_dash s ≡ false
  pub short : length s ≤ 60

replace_runs-All :
    (P : ℕ → Type 0) (p : ℕ → Bool) (r : ℕ) (inside : Bool) (s : Text)
    → P r
    → All (λ c. p c ≡ false → P c) s
    → All P (replace_runs p r inside s)
replace_runs-All P p r inside [] hr hs = tt
replace_runs-All P p r inside (c ∷ s) hr hs = elim (Bool-cases (p c)) [
  | inl e ↦ elim (Bool-cases inside) [
    | inl i ↦ rw (e, i) (replace_runs-All P p r true s hr hs.1)
    | inr i ↦ rw (e, i) (hr, replace_runs-All P p r true s hr hs.1)
  ]
  | inr e ↦ rw e (hs.0 e, replace_runs-All P p r false s hr hs.1)
]

select-holds : (p : ℕ → Bool) (s : Text) → All (λ c. p c ≡ true) (select p s)
select-holds p [] = tt
select-holds p (c ∷ s) = elim (Bool-cases (p c)) [
  | inl e ↦ rw e (e, select-holds p s)
  | inr e ↦ rw e (select-holds p s)
]

All-map : (P Q : ℕ → Type 0) (s : Text) → ((c : ℕ) → P c → Q c) → All P s → All Q s
All-map P Q [] h all = tt
All-map P Q (c ∷ s) h all = (h c all.0, All-map P Q s h all.1)

-- After the dashes are joined, a text that follows a run does not start with one.
collapsed :
    (inside : Bool) (s : Text)
    → HasSingleDashes (replace_runs is_dash b'-' inside s)
      × ((inside ≡ true) → starts_with_dash (replace_runs is_dash b'-' inside s) ≡ false)
collapsed inside [] = (tt, λ _. refl)
collapsed inside (c ∷ s) = elim (Bool-cases (is_dash c)) [
  | inl e ↦ elim (Bool-cases inside) [
    | inl i ↦ rw (e, i) (let (single, start) = collapsed true s in (single, λ _. start refl))
    | inr i ↦ rw (e, i) (let (single, start) = collapsed true s in ((start refl, single), λ n. cc))
  ]
  | inr e ↦ rw e (let (single, start) = collapsed false s in ((rw e refl, single), λ _. e))
]

strip_start-HasSingleDashes :
    (s : Text)
    → HasSingleDashes s
    → HasSingleDashes (strip_start s) × (starts_with_dash (strip_start s) ≡ false)
strip_start-HasSingleDashes [] h = (tt, refl)
strip_start-HasSingleDashes (c ∷ s) h = elim (Bool-cases (is_dash c)) [
  | inl e ↦ rw e (h.1, ground (arith, h.0, e))
  | inr e ↦ rw e (h, e)
]

-- A text that starts no more often with a dash keeps a text before it free of double dashes.
dash_before :
    (c : ℕ) (s t : Text)
    → (starts_with_dash s ≡ false → starts_with_dash t ≡ false)
    → (is_dash c && starts_with_dash s) ≡ false
    → (is_dash c && starts_with_dash t) ≡ false
dash_before c s t h n = elim (Bool-cases (is_dash c)) [
  | inl e ↦ rw e (h (subst (λ b. (b && starts_with_dash s) ≡ false) e n))
  | inr e ↦ rw e refl
]

strip_end_start : (s : Text) → starts_with_dash s ≡ false → starts_with_dash (strip_end s) ≡ false
strip_end_start [] h = refl
strip_end_start (c ∷ []) h = ground arith
strip_end_start (c ∷ d ∷ s) h = h

slice_start : (n : ℕ) (s : Text) → starts_with_dash s ≡ false → starts_with_dash (slice n s) ≡ false
slice_start zero s h = refl
slice_start (suc n) [] h = refl
slice_start (suc n) (c ∷ s) h = h

strip_end-HasSingleDashes : (s : Text) → HasSingleDashes s → HasSingleDashes (strip_end s)
strip_end-HasSingleDashes [] h = tt
strip_end-HasSingleDashes (c ∷ []) h = elim (Bool-cases (is_dash c)) [
  | inl e ↦ rw e tt
  | inr e ↦ rw e h
]
strip_end-HasSingleDashes (c ∷ d ∷ s) h = (
  dash_before c (d ∷ s) (strip_end (d ∷ s)) (strip_end_start (d ∷ s)) h.0,
  strip_end-HasSingleDashes (d ∷ s) h.1,
)

slice-HasSingleDashes : (n : ℕ) (s : Text) → HasSingleDashes s → HasSingleDashes (slice n s)
slice-HasSingleDashes zero s h = tt
slice-HasSingleDashes (suc n) [] h = tt
slice-HasSingleDashes (suc n) (c ∷ s) h =
    (dash_before c s (slice n s) (slice_start n s) h.0, slice-HasSingleDashes n s h.1)

module _ (P : ℕ → Type 0) where
  strip_start-All : (s : Text) → All P s → All P (strip_start s)
  strip_start-All [] h = tt
  strip_start-All (c ∷ s) h = elim (Bool-cases (is_dash c)) [ inl e ↦ rw e h.1 | inr e ↦ rw e h ]

  strip_end-All : (s : Text) → All P s → All P (strip_end s)
  strip_end-All [] h = tt
  strip_end-All (c ∷ []) h = elim (Bool-cases (is_dash c)) [ inl e ↦ rw e tt | inr e ↦ rw e h ]
  strip_end-All (c ∷ d ∷ s) h = (h.0, strip_end-All (d ∷ s) h.1)

  slice-All : (n : ℕ) (s : Text) → All P s → All P (slice n s)
  slice-All zero s h = tt
  slice-All (suc n) [] h = tt
  slice-All (suc n) (c ∷ s) h = (h.0, slice-All n s h.1)

length-slice : (n : ℕ) (s : Text) → length (slice n s) ≤ n
length-slice zero s = omega arith
length-slice (suc n) [] = omega arith
length-slice (suc n) (c ∷ s) = omega (arith, length-slice n s)

standing :
    (c : ℕ)
    → (is_slug_character c || is_space c || is_dash c) ≡ true
    → is_space c ≡ false
    → may_stand c ≡ true
standing c h n = ground arith

-- Whatever the input, a slug has lower-case letters, digits and dashes only, no two dashes side by
-- side, no dash at its start, and at most 60 characters.
pub slugify-IsSlug : (input : Text) → IsSlug (slugify input)
unfolding slugify
slugify-IsSlug input =
    let kept =
      select (λ c. is_slug_character c || is_space c || is_dash c) (trim (to_lower_case input)) in
    let joined = replace_runs is_space b'-' false kept in
    let collapsed_text = replace_runs is_dash b'-' false joined in
    let joined-All : All (λ c. may_stand c ≡ true) joined =
      replace_runs-All (λ c. may_stand c ≡ true) is_space b'-' false kept refl
        (All-map _ _ kept standing (select-holds _ (trim (to_lower_case input)))) in
    let collapsed-All : All (λ c. may_stand c ≡ true) collapsed_text =
      replace_runs-All (λ c. may_stand c ≡ true) is_dash b'-' false joined refl
        (All-map _ _ joined (λ c h _. h) joined-All) in
    let stripped = strip_start collapsed_text in
    let (single, start) = strip_start-HasSingleDashes collapsed_text (collapsed false joined).0 in
    record {
      allowed =
          slice-All _ 60 _ (strip_end-All _ _ (strip_start-All _ collapsed_text collapsed-All));
      single_dashes = slice-HasSingleDashes 60 _ (strip_end-HasSingleDashes _ single);
      no_leading_dash = slice_start 60 (strip_end stripped) (strip_end_start stripped start);
      short = length-slice 60 _;
    }
