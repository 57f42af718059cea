-- ===== src/Helpers/Duration.antt =====
-- apps/backend/src/common/utils/duration.util.ts: durations such as '15m' and '7d'. Amounts are taken
-- exactly; above 2^53 milliseconds JavaScript rounds.
use sentinel_desk.Prelude.{
  ℕ, ◌+◌, ◌*◌, ◌≡◌, refl, sym, ◌∙◌, ap, subst, Bool, true, false, Option, none, some, [], ◌∷◌, ◌++◌,
  Text, arith, Result, ok, err, or_throw, ◌>>=◌, internal_error, invalid_duration, ◌==◌,
  if◌then◌else◌, All,
}
use sentinel_desk.Helpers.Characters.{
  is_digit, is_space, drop_while, keep_unless, drop_while_end, trim,
}
use sentinel_desk.Helpers.Decimal.{parse_int, to_text, parse_int-to_text, to_text-All, to_text_some}

-- `UNIT_MS`
abbrev pub unit_ms : ℕ → Option ℕ
unit_ms unit =
    if unit == b's'
    then some 1000
    else if unit == b'm'
    then some 60000
    else if unit == b'h'
    then some 3600000
    else if unit == b'd'
    then some 86400000
    else none

abbrev pub take_while : (ℕ → Bool) → Text → Text
take_while p [] = []
take_while p (c ∷ s) = let rest = take_while p s in if p c then c ∷ rest else []

-- The groups of `/^(\d+)(s|m|h|d)$/`: the text is some digits and one character after them.
abbrev pub amount_and_unit : Text → Text → Option (Text × ℕ)
amount_and_unit [] rest = none
amount_and_unit (d ∷ ds) [] = none
amount_and_unit (d ∷ ds) (u ∷ []) = some (d ∷ ds, u)
amount_and_unit (d ∷ ds) (u ∷ _ ∷ _) = none

abbrev pub amount_in_ms : Option (Text × ℕ) → Result ℕ
amount_in_ms none = err (internal_error invalid_duration)
amount_in_ms (some (amount, unit)) = do
  ms ← or_throw (unit_ms unit) (internal_error invalid_duration)
  ok (parse_int 0 amount * ms)

abbrev pub match_duration : Text → Option (Text × ℕ)
match_duration s = amount_and_unit (take_while is_digit s) (drop_while is_digit s)

-- `parseDurationMs`
unfoldable pub parse_duration_ms : Text → Result ℕ
parse_duration_ms duration = amount_in_ms (match_duration (trim duration))

-- `addDuration`
unfoldable pub add_duration : ℕ → Text → Result ℕ
unfolding parse_duration_ms
add_duration base duration = parse_duration_ms duration >>= λ ms. ok (base + ms)

drop_while-append :
    (p : ℕ → Bool) (s t : Text) → All (λ c. p c ≡ true) s → drop_while p (s ++ t) ≡ drop_while p t
drop_while-append p [] t h = refl
drop_while-append p (c ∷ s) t h = ground (arith, drop_while-append p s t h.1)

take_while-append :
    (p : ℕ → Bool) (s : Text) (u : ℕ)
    → All (λ c. p c ≡ true) s
    → p u ≡ false
    → take_while p (s ++ u ∷ []) ≡ s
take_while-append p [] u h n = ground arith
take_while-append p (c ∷ s) u h n = ground (arith, take_while-append p s u h.1)

drop_while_end-All : (p : ℕ → Bool) (t : Text) → All (λ c. p c ≡ true) t → drop_while_end p t ≡ []
drop_while_end-All p [] h = refl
drop_while_end-All p (c ∷ t) h = ground (arith, drop_while_end-All p t h.1)

keep_unless_more :
    (p : ℕ → Bool) (c u : ℕ) (s : Text) → keep_unless p c (s ++ u ∷ []) ≡ c ∷ (s ++ u ∷ [])
keep_unless_more p c u [] = refl
keep_unless_more p c u (d ∷ s) = refl

drop_while_end-append :
    (p : ℕ → Bool) (s t : Text) (u : ℕ)
    → p u ≡ false
    → All (λ c. p c ≡ true) t
    → drop_while_end p (s ++ u ∷ t) ≡ s ++ u ∷ []
drop_while_end-append p [] t u n h = ground (arith, drop_while_end-All p t h)
drop_while_end-append p (c ∷ s) t u n h =
    ap (keep_unless p c) (drop_while_end-append p s t u n h) ∙ keep_unless_more p c u s

is_digit-is_space : (c : ℕ) → is_digit c ≡ true → is_space c ≡ false
unfolding is_space
is_digit-is_space c h = ground arith

-- A duration that is written as digits and a unit.
abbrev pub written : ℕ → ℕ → Text → Text → Text
written n unit before after = before ++ (to_text n ++ unit ∷ after)

drop_while_stop : (p : ℕ → Bool) (c : ℕ) (s : Text) → p c ≡ false → drop_while p (c ∷ s) ≡ c ∷ s
drop_while_stop p c s h = rw h refl

trim_written :
    (n unit : ℕ) (before after : Text)
    → is_space unit ≡ false
    → All (λ c. is_space c ≡ true) before
    → All (λ c. is_space c ≡ true) after
    → trim (written n unit before after) ≡ to_text n ++ unit ∷ []
trim_written n unit before after u b a =
    let (c, s, e) = to_text_some n in
    let digit : is_digit c ≡ true = (subst (All (λ c. is_digit c ≡ true)) e (to_text-All n)).0 in
    ap (drop_while_end is_space) {y = to_text n ++ unit ∷ after} (
      drop_while-append is_space before (to_text n ++ unit ∷ after) b
      ∙ rw e (drop_while_stop is_space c (s ++ unit ∷ after) (is_digit-is_space c digit)))
    ∙ drop_while_end-append is_space (to_text n) after unit u a

unit-is_space : (unit ms : ℕ) → unit_ms unit ≡ some ms → is_space unit ≡ false
unfolding is_space
unit-is_space unit ms known = ground arith

unit-is_digit : (unit ms : ℕ) → unit_ms unit ≡ some ms → is_digit unit ≡ false
unit-is_digit unit ms known = ground arith

pair_path : {s s' t t' : Text} → s ≡ s' → t ≡ t' → Path (Text × Text) (s, t) (s', t')
pair_path p q = cc

-- A number in digits and one of the four units, with white space around, is read as that many of
-- the unit's milliseconds.
pub parse_duration_ms_written :
    (n unit ms : ℕ) (before after : Text)
    → unit_ms unit ≡ some ms
    → All (λ c. is_space c ≡ true) before
    → All (λ c. is_space c ≡ true) after
    → parse_duration_ms (written n unit before after) ≡ ok (n * ms)
unfolding parse_duration_ms
parse_duration_ms_written n unit ms before after known b a =
    let (c, s, some_digit) = to_text_some n in
    let amount : take_while is_digit (to_text n ++ unit ∷ []) ≡ c ∷ s =
      take_while-append is_digit (to_text n) unit (to_text-All n) (unit-is_digit unit ms known)
      ∙ some_digit in
    let rest : drop_while is_digit (to_text n ++ unit ∷ []) ≡ unit ∷ [] =
      drop_while-append is_digit (to_text n) (unit ∷ []) (to_text-All n)
      ∙ drop_while_stop is_digit unit [] (unit-is_digit unit ms known) in
    let number : parse_int 0 (c ∷ s) ≡ n =
      ap (parse_int 0) (sym some_digit) ∙ parse_int-to_text n in
    ap (λ s. amount_in_ms (match_duration s))
      (trim_written n unit before after (unit-is_space unit ms known) b a)
    ∙ ap (λ (p : Text × Text). amount_in_ms (amount_and_unit p.0 p.1)) (pair_path amount rest)
    ∙ rw (known, number) refl
