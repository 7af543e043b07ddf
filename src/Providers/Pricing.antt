-- ===== src/Providers/Pricing.antt =====
-- packages/providers/src/pricing.ts: the price tables, costs, and the prices that order fallbacks.
-- Rates are in hundredths of a dollar for a million tokens, so that the tables are whole numbers.
-- The tables are read as maps: a model named like a member of `Object.prototype` has no entry here.
use makedown.Base.{
  ℕ, ◌+◌, ◌*◌, ◌-◌, ◌/◌, Text, text_eq, nat_eq, lit, Bool, true, false, ◌&&◌, Option, none, some,
  [], ◌∷◌, ◌==◌, leb, length, take, drop, index_of, if◌then◌else◌,
}
use makedown.Base.Map.{Map, get}
use makedown.Providers.ModelRef.{parse_model_ref}

pub record Rate : Type 0 where
  pub input : ℕ
  pub output : ℕ

abbrev rate : ℕ → ℕ → Rate
rate i o = record { input = i; output = o }

abbrev pub pricing : Map Text Rate
pricing =
    (lit "claude-opus-4-8", rate 500 2500)
    ∷ (lit "claude-opus-4-7", rate 500 2500)
    ∷ (lit "claude-opus-4-6", rate 500 2500)
    ∷ (lit "claude-sonnet-4-6", rate 300 1500)
    ∷ (lit "claude-haiku-4-5", rate 100 500)
    ∷ []

abbrev pub openai_ordering_pricing : Map Text Rate
openai_ordering_pricing =
    (lit "gpt-4o", rate 250 1000)
    ∷ (lit "gpt-4o-mini", rate 15 60)
    ∷ (lit "gpt-4.1", rate 200 800)
    ∷ (lit "gpt-4.1-mini", rate 40 160)
    ∷ (lit "gpt-4.1-nano", rate 10 40)
    ∷ (lit "o3", rate 200 800)
    ∷ (lit "o4-mini", rate 110 440)
    ∷ []

abbrev is_digit : ℕ → Bool
is_digit c = leb b'0' c && leb c b'9'

abbrev all_digits : Text → Bool
all_digits [] = true
all_digits (c ∷ s) = is_digit c && all_digits s

-- A dash and eight digits: what `DATE_SUFFIX_RE` matches at the end of an id.
abbrev is_date_suffix : Text → Bool
is_date_suffix [] = false
is_date_suffix (c ∷ digits) = c == b'-' && (length digits == 8 && all_digits digits)

unfoldable pub strip_date_suffix : Text → Text
strip_date_suffix id =
    let cut = length id - 9 in if is_date_suffix (drop cut id) then take cut id else id

-- What stands behind the last slash.
abbrev after_last_slash : Text → Text
after_last_slash [] = []
after_last_slash (c ∷ s) = elim (index_of b'/' s) [
  | some _ ↦ after_last_slash s
  | none ↦ if c == b'/' then s else c ∷ s
]

abbrev vendor_prefix : Text
vendor_prefix = lit "anthropic."

unfoldable pub normalize_model_id : Text → Text
normalize_model_id model =
    let id = after_last_slash model in
    if take (length vendor_prefix) id == vendor_prefix then drop (length vendor_prefix) id else id

unfoldable pub lookup : Map Text Rate → Text → Option Rate
unfolding get strip_date_suffix
lookup table id = elim (get table id) [ some r ↦ some r | none ↦ get table (strip_date_suffix id) ]

unfoldable pub anthropic_rate : Text → Option Rate
unfolding lookup normalize_model_id
anthropic_rate model = elim (lookup pricing model) [
  | some r ↦ some r
  | none ↦ lookup pricing (normalize_model_id model)
]

-- In millionths of a dollar; the rates of `pricing` are whole dollars.
unfoldable pub estimate_cost_usd : Text → ℕ → ℕ → Option ℕ
unfolding anthropic_rate
estimate_cost_usd model input_tokens output_tokens = elim (anthropic_rate model) [
  | none ↦ none
  | some r ↦ some ((input_tokens * r.input + output_tokens * r.output) / 100)
]

-- In halves of a hundredth of a dollar, so the mean of the two rates is their sum.
unfoldable pub blended_price : Text → Text → Option ℕ
unfolding lookup anthropic_rate parse_model_ref
blended_price ref default_provider =
    let m = parse_model_ref ref default_provider in
    let found =
      if m.provider == lit "openai"
      then lookup openai_ordering_pricing m.model
      else anthropic_rate m.model in
    elim found [ none ↦ none | some r ↦ some (r.input + r.output) ]
