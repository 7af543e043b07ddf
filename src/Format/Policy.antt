-- ===== src/Format/Policy.antt =====
-- packages/shared/src/schemas.ts: cache policies as text, and target names.
use makedown.Base.{
  ℕ, zero, suc, ◌+◌, ◌-◌, ◌*◌, ◌/◌, ◌%◌, ◌<◌, Text, text_eq, nat_eq, lit, trim, trim_end,
  trim_start, Bool, true, false, ◌&&◌, ◌||◌, ◌==◌, leb, ltb, le→leb, lt→ltb, Option, none, some, [],
  ◌∷◌, ◌++◌, list_eqb, is_space, ◌≢◌, if◌then◌else◌, Result, ok, err, ◌≡◌, refl, arith, ap, ◌∙◌,
  sym, Bool-cases, inl, inr, ◌↔◌,
}
use makedown.Types.{CachePolicy, deterministic, stochastic, always}

pub data PolicyError : Type 0 where
  count_below_one : PolicyError
  invalid_policy : Text → PolicyError

abbrev pub is_digit : ℕ → Bool
is_digit c = leb 48 c && leb c 57

-- `/^(\d+)\)$/`, from a count that was read so far.
abbrev pub digits_then_close : Bool → ℕ → Text → Option ℕ
digits_then_close seen n [] = none
digits_then_close seen n (c ∷ s) =
    let rest = digits_then_close true (n * 10 + (c - 48)) s in
    if is_digit c then rest else if seen && c == b')' && s == [] then some n else none

-- What follows a prefix.
abbrev pub after : Text → Text → Option Text
after [] s = some s
after (p ∷ prefix) [] = none
after (p ∷ prefix) (c ∷ s) = let rest = after prefix s in if p == c then rest else none

-- `Number` of a run of digits below 2 ^ 1024: exact below 2 ^ 53, and else the nearest number with 53 bits
-- before its zeros, the even one of two.
abbrev pub exact_bound : ℕ
exact_bound = 9007199254740992

abbrev pub half_even : ℕ → ℕ → ℕ
half_even n unit =
    let q = n / unit in
    let r = n % unit in
    (if ltb (2 * r) unit then q else if ltb unit (2 * r) then q + 1 else q + q % 2) * unit

abbrev pub unit_of : ℕ → ℕ → ℕ → ℕ
unit_of zero unit n = unit
unit_of (suc fuel) unit n = elim (ltb (n / unit) exact_bound) [
  | true ↦ unit
  | false ↦ unit_of fuel (2 * unit) n
]

unfoldable pub number : ℕ → ℕ
number n = elim (ltb n exact_bound) [ true ↦ n | false ↦ half_even n (unit_of 971 1 n) ]

abbrev pub read_number : Option ℕ → Option ℕ
read_number none = none
read_number (some n) = some (number n)

unfoldable pub stochastic_count : Text → Option ℕ
stochastic_count s = elim (after (lit "stochastic(n=") s) [
  | none ↦ none
  | some rest ↦ read_number (digits_then_close false 0 rest)
]

abbrev pub of_count : Text → Option ℕ → Result PolicyError CachePolicy
of_count raw none = err (invalid_policy raw)
of_count raw (some n) = if ltb n 1 then err count_below_one else ok (stochastic n)

unfoldable pub parse_cache_policy : Option Text → Result PolicyError CachePolicy
parse_cache_policy none = ok deterministic
parse_cache_policy (some raw) =
    if raw == lit "deterministic"
    then ok deterministic
    else if raw == lit "always"
    then ok always
    else of_count raw (stochastic_count (trim raw))

-- A number in decimal digits; there are fewer digits than the fuel.
abbrev pub digits : ℕ → ℕ → Text
digits zero n = []
digits (suc fuel) n =
    let more = digits fuel (n / 10) in
    if ltb n 10 then (48 + n) ∷ [] else more ++ (48 + n % 10) ∷ []

abbrev pub decimal : ℕ → Text
decimal n = digits (suc n) n

-- `show` is the platform's printing of a number, in decimal digits where it is exact.
unfoldable pub cache_policy_to_string : (ℕ → Text) → CachePolicy → Text
cache_policy_to_string show deterministic = lit "deterministic"
cache_policy_to_string show always = lit "always"
cache_policy_to_string show (stochastic n) = lit "stochastic(n=" ++ show n ++ b')' ∷ []

abbrev pub is_name_start : ℕ → Bool
is_name_start c = leb 97 c && leb c 122 || is_digit c

abbrev pub all_name_chars : Text → Bool
all_name_chars [] = true
all_name_chars (c ∷ s) = (is_name_start c || c == b'_' || c == b'-') && all_name_chars s

-- `/^[a-z0-9][a-z0-9_-]*$/`
unfoldable pub is_valid_target_name : Text → Bool
is_valid_target_name [] = false
is_valid_target_name (c ∷ s) = is_name_start c && all_name_chars s

abbrev pub is_valid : CachePolicy → Bool
is_valid deterministic = true
is_valid always = true
is_valid (stochastic n) = leb 1 n

-- What the digits of a number read as.
abbrev pub all_digits : Text → Bool
all_digits [] = true
all_digits (c ∷ s) = is_digit c && all_digits s

abbrev value : ℕ → Text → ℕ
value n [] = n
value n (c ∷ s) = value (n * 10 + (c - 48)) s

value-snoc : (n c : ℕ) (s : Text) → value n (s ++ c ∷ []) ≡ value n s * 10 + (c - 48)
value-snoc n c [] = refl
value-snoc n c (d ∷ s) = value-snoc (n * 10 + (d - 48)) c s

digits-value : (fuel n : ℕ) → n < fuel → value 0 (digits fuel n) ≡ n
digits-value zero n h = absurd (omega arith)
digits-value (suc fuel) n h = elim (Bool-cases (ltb n 10)) [
  | inl small ↦ rw small omega arith
  | inr large ↦ rw large (
      value-snoc 0 (48 + n % 10) (digits fuel (n / 10))
      ∙ ground (arith, digits-value fuel (n / 10)))
]

all_digits-snoc :
    (s : Text) (c : ℕ) → is_digit c ≡ true → all_digits s ≡ true → all_digits (s ++ c ∷ []) ≡ true
all_digits-snoc [] c d h = ground (arith, d)
all_digits-snoc (x ∷ s) c d h = ground (arith, all_digits-snoc s c d)

digits-all_digits : (fuel n : ℕ) → all_digits (digits fuel n) ≡ true
digits-all_digits zero n = refl
digits-all_digits (suc fuel) n = elim (Bool-cases (ltb n 10)) [
  | inl small ↦ rw small ground arith
  | inr large ↦ rw large (
      all_digits-snoc (digits fuel (n / 10)) (48 + n % 10)
        (ground (arith, le→leb 48 (48 + n % 10), le→leb (48 + n % 10) 57))
        (digits-all_digits fuel (n / 10)))
]

-- Digits and the closing parenthesis are read back.
close_lem :
    (s : Text) (n : ℕ)
    → all_digits s ≡ true
    → digits_then_close true n (s ++ b')' ∷ []) ≡ some (value n s)
unfolding list_eqb
close_lem [] n h = refl
close_lem (c ∷ s) n h = ground (arith, close_lem s (n * 10 + (c - 48)))

close_first :
    (s : Text) (n : ℕ)
    → s ≢ []
    → all_digits s ≡ true
    → digits_then_close false n (s ++ b')' ∷ []) ≡ some (value n s)
close_first [] n some_digit h = absurd (some_digit refl)
close_first (c ∷ s) n some_digit h = ground (arith, close_lem s (n * 10 + (c - 48)))

snoc-nonempty : (s : Text) (c : ℕ) → s ++ c ∷ [] ≢ []
snoc-nonempty [] c e = cc
snoc-nonempty (x ∷ s) c e = cc

decimal-nonempty : (n : ℕ) → decimal n ≢ []
decimal-nonempty n = elim (Bool-cases (ltb n 10)) [
  | inl small ↦ rw small (λ e. cc)
  | inr large ↦ rw large (snoc-nonempty (digits n (n / 10)) (48 + n % 10))
]

trim_end-snoc : (s : Text) (c : ℕ) → is_space c ≡ false → trim_end (s ++ c ∷ []) ≡ s ++ c ∷ []
unfolding trim_end
trim_end-snoc [] c h = ground arith
trim_end-snoc (x ∷ []) c h = ground arith
trim_end-snoc (x ∷ y ∷ s) c h =
    ap
      (λ (r : Text). elim r as (λ _. Text) [
        | [] ↦ if is_space x then [] else x ∷ []
        | d ∷ more ↦ x ∷ d ∷ more
      ])
      (trim_end-snoc (y ∷ s) c h)

stochastic-trim :
    (s : Text)
    → trim (lit "stochastic(n=" ++ s ++ b')' ∷ []) ≡ lit "stochastic(n=" ++ s ++ b')' ∷ []
unfolding trim trim_start
stochastic-trim s = trim_end-snoc (lit "stochastic(n=" ++ s) b')' refl

number_exact : (n : ℕ) → n < exact_bound → number n ≡ n
unfolding number
number_exact n h =
    ap (λ b. elim b as (λ _. ℕ) [ true ↦ n | false ↦ half_even n (unit_of 971 1 n) ])
      (lt→ltb n exact_bound h)

count-decimal :
    (n : ℕ)
    → n < exact_bound
    → stochastic_count (trim (cache_policy_to_string decimal (stochastic n))) ≡ some n
unfolding stochastic_count cache_policy_to_string
count-decimal n safe =
    ap stochastic_count (stochastic-trim (decimal n))
    ∙ ap read_number (
        close_first (decimal n) 0 (decimal-nonempty n) (digits-all_digits (suc n) n)
        ∙ ap some (digits-value (suc n) n (omega arith)))
    ∙ ap some (number_exact n safe)

of_count_lem : (raw : Text) (n : ℕ) → (of_count raw (some n) ≡ ok (stochastic n)) ↔ (leb 1 n ≡ true)
of_count_lem raw n = elim (Bool-cases (ltb n 1)) [
  | inl few ↦ ground arith
  | inr some_samples ↦ ground arith
]

abbrev pub count_of : CachePolicy → ℕ
count_of deterministic = 0
count_of always = 0
count_of (stochastic n) = n

-- A policy whose count is below 2 ^ 53 is read back from its text exactly when it is one that the code
-- accepts: deterministic, always, or stochastic with at least one sample. The platform is taken to print
-- such a number in decimal digits.
pub parse_cache_policy-cache_policy_to_string :
    (show : ℕ → Text) (p : CachePolicy)
    → ((n : ℕ) → n < exact_bound → show n ≡ decimal n)
    → count_of p < exact_bound
    → (parse_cache_policy (some (cache_policy_to_string show p)) ≡ ok p) ↔ (is_valid p ≡ true)
unfolding parse_cache_policy cache_policy_to_string list_eqb
parse_cache_policy-cache_policy_to_string show deterministic prints safe = (λ _. refl, λ _. refl)
parse_cache_policy-cache_policy_to_string show always prints safe = (λ _. refl, λ _. refl)
parse_cache_policy-cache_policy_to_string show (stochastic n) prints safe =
    let raw = cache_policy_to_string show (stochastic n) in
    let (valid, back) = of_count_lem raw n in
    let printed = ap (λ s. lit "stochastic(n=" ++ s ++ b')' ∷ []) (prints n safe) in
    let counted =
      ap (of_count raw) (ap (λ s. stochastic_count (trim s)) printed ∙ count-decimal n safe) in
    (λ e. valid (sym counted ∙ e), λ v. counted ∙ back v)
