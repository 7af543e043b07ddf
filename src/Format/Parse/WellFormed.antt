-- ===== src/Format/Parse/WellFormed.antt =====
-- What holds of every document that parseBuildDoc returns.
use makedown.Base.{
  ℕ, Text, text_eq, Bool, true, false, not, ◌||◌, Option, none, some, or_default, is_some, List, [],
  ◌∷◌, ◌++◌, map, has, has-append, All, All-of, Result, ok, ◌>>=◌, ◌>>◌, >>=-eq-ok, OnOk, OnOk-ok,
  OnOk-bind, OnOk-check, OnOk-passed, passed-ok, passed, check, lit, index_of, ap, if◌then◌else◌,
  check-ok, ◌≡◌, refl, subst, arith, ok-injective,
}
use makedown.Types.{
  StepType, chat, agent, transform, eval, map_step, RecipeHeader, TargetBlock, FrontMatter,
  BuildDoc,
}
use makedown.Refs.{bare_ref}
use makedown.Format.Policy.{is_valid_target_name}
use makedown.Format.Lines.{split_lines, refs_in_body}
use makedown.Format.Parse.{
  Reader, ParseError, bad_stochastic, non_empty, RawTarget, outside, extract_raws,
  split_front_matter,
}
use makedown.Format.Parse.Target.{
  merge_defaults, read_header, with_defaults, checked_target, is_stochastic, can_sample,
  assert_step_requirements, assert_refs_declared, declared_refs, is_map, map_item_ref,
  assert_strict, to_target_block, to_target_blocks, extract_targets, assert_unique_names,
  unique_from, parse_build_doc, parse_parts, parse_body, unique_doc, normalize_front_matter,
  check_step, check_over, check_refs, check_texts,
}

-- The fields without which a step cannot be executed.
abbrev pub supplied : RecipeHeader → StepType → Bool
supplied h chat = true
supplied h eval = true
supplied h transform = is_some (non_empty h.transform_script)
supplied h agent = is_some (non_empty h.agent_id)
supplied h map_step = elim (non_empty h.over) [
  | none ↦ false
  | some over ↦ has (map bare_ref h.inputs) over
]

-- What a text of a target may refer to: its inputs, and on a map step alone the item at hand.
abbrev pub may_read : StepType → List Text → List Text
may_read map_step inputs = map bare_ref inputs ++ lit "item" ∷ []
may_read chat inputs = map bare_ref inputs
may_read eval inputs = map bare_ref inputs
may_read agent inputs = map bare_ref inputs
may_read transform inputs = map bare_ref inputs

map-append : (f : Text → Text) (xs ys : List Text) → map f (xs ++ ys) ≡ map f xs ++ map f ys
map-append f [] ys = refl
map-append f (x ∷ xs) ys = ap (λ l. f x ∷ l) (map-append f xs ys)

may_read-declared :
    (s : StepType) (inputs : List Text)
    → map bare_ref (if is_map s then inputs ++ map_item_ref ∷ [] else inputs) ≡ may_read s inputs
unfolding bare_ref index_of
may_read-declared map_step inputs = map-append bare_ref inputs (map_item_ref ∷ [])
may_read-declared chat inputs = refl
may_read-declared eval inputs = refl
may_read-declared agent inputs = refl
may_read-declared transform inputs = refl

pub may_read-declared_refs :
    (h : RecipeHeader) → map bare_ref (declared_refs h) ≡ may_read h.step h.inputs
may_read-declared_refs h = may_read-declared h.step h.inputs

abbrev pub Declared : RecipeHeader → Text → Type 0
Declared h text = All (λ ref. has (may_read h.step h.inputs) ref ≡ true) (refs_in_body text)

abbrev pub IsTarget : TargetBlock → Type 0
IsTarget t =
    (is_valid_target_name t.name ≡ true)
    × (supplied t.header t.header.step ≡ true)
    × ((not (is_stochastic t.header.cache) || can_sample t.header.step) ≡ true)
    × Declared t.header t.body
    × Declared t.header (or_default t.header.system [])

abbrev pub Distinct : List Text → Type 0
Distinct [] = Unit
Distinct (x ∷ xs) = (has xs x ≡ false) × Distinct xs

check_refs-Declared :
    (name : Text) (line : ℕ) (declared refs : List Text)
    → check_refs name line declared refs ≡ ok passed
    → All (λ ref. has declared ref ≡ true) refs
check_refs-Declared name line declared [] e = tt
check_refs-Declared name line declared (ref ∷ refs) e =
    let (here, rest) = check-ok (has declared ref) _ (check_refs name line declared refs) e in
    (here, check_refs-Declared name line declared refs rest)

check-passed : (b : Bool) (e : ParseError) → check b e ≡ ok passed → b ≡ true
check-passed true e h = refl
check-passed false e h = cc

check_over-supplied :
    (name : Text) (line : ℕ) (inputs : List Text) (over : Option Text)
    → check_over name line inputs over ≡ ok passed
    → (elim over [ none ↦ false | some over ↦ has (map bare_ref inputs) over ]) ≡ true
check_over-supplied name line inputs none e = cc
check_over-supplied name line inputs (some over) e =
    check-passed (has (map bare_ref inputs) over) _ e

check_step-supplied :
    (name : Text) (line : ℕ) (h : RecipeHeader) (step : StepType)
    → check_step name line h step ≡ ok passed
    → supplied h step ≡ true
check_step-supplied name line h chat e = refl
check_step-supplied name line h eval e = refl
check_step-supplied name line h transform e =
    check-passed (is_some (non_empty h.transform_script)) _ e
check_step-supplied name line h agent e = check-passed (is_some (non_empty h.agent_id)) _ e
check_step-supplied name line h map_step e =
    check_over-supplied name line h.inputs (non_empty h.over) e

check_texts-Declared :
    (name : Text) (line : ℕ) (h : RecipeHeader) (first second : Text)
    → assert_refs_declared name (first ∷ second ∷ []) (declared_refs h) line ≡ ok passed
    → Declared h first × Declared h second
unfolding assert_refs_declared
check_texts-Declared name line h first second e =
    let declared = map bare_ref (declared_refs h) in
    let (here, rest) =
      passed-ok (check_refs name line declared (refs_in_body first))
        (check_texts name line declared (second ∷ [])) e in
    let (there, _) =
      passed-ok (check_refs name line declared (refs_in_body second)) (ok passed) rest in
    let may = λ (refs : List Text).
      subst (λ l. All (λ ref. has l ref ≡ true) refs) (may_read-declared_refs h) in
    (
      may (refs_in_body first) (check_refs-Declared name line declared (refs_in_body first) here),
      may (refs_in_body second)
          (check_refs-Declared name line declared (refs_in_body second) there),
    )

to_target_block-IsTarget :
    (reader : Reader) (raw : RawTarget) (fm : FrontMatter)
    → OnOk IsTarget (to_target_block reader raw fm true)
unfolding to_target_block assert_step_requirements
to_target_block-IsTarget reader raw fm =
    OnOk-check IsTarget (is_valid_target_name raw.name) _
      (read_header reader raw >>= with_defaults fm true raw)
      (λ valid. OnOk-bind IsTarget (read_header reader raw) (with_defaults fm true raw) (λ parsed _.
        OnOk-bind IsTarget (merge_defaults raw.name parsed fm) (checked_target true raw) (λ h _.
          let block : Result ParseError TargetBlock =
            ok (record { name = raw.name; header = h; body = raw.body }) in
          let samples =
            check (not (is_stochastic h.cache) || can_sample h.step)
              (bad_stochastic raw.name raw.heading_line) in
          OnOk-passed IsTarget (assert_step_requirements raw.name h raw.heading_line)
            (assert_strict true raw h >> block)
            (λ required. OnOk-passed IsTarget (assert_strict true raw h) block (λ strict.
              let (has_fields, sampled) =
                passed-ok (check_step raw.name raw.heading_line h h.step) samples required in
              let (in_body, in_system) =
                check_texts-Declared raw.name raw.heading_line h raw.body (or_default h.system [])
                  strict in
              (
                valid,
                check_step-supplied raw.name raw.heading_line h h.step has_fields,
                check-passed (not (is_stochastic h.cache) || can_sample h.step) _ sampled,
                in_body,
                in_system,
              ))))))

to_target_blocks-IsTarget :
    (reader : Reader) (raws : List RawTarget) (fm : FrontMatter)
    → OnOk (All IsTarget) (to_target_blocks reader raws fm true)
to_target_blocks-IsTarget reader [] fm = tt
to_target_blocks-IsTarget reader (raw ∷ raws) fm =
    OnOk-bind (All IsTarget) (to_target_block reader raw fm true)
      (λ block. to_target_blocks reader raws fm true >>= λ blocks. ok (block ∷ blocks))
      (λ block made.
        OnOk-bind (All IsTarget) (to_target_blocks reader raws fm true)
          (λ blocks. ok (block ∷ blocks))
          (λ blocks rest. (
            OnOk-ok IsTarget _ block (to_target_block-IsTarget reader raw fm) made,
            OnOk-ok (All IsTarget) _ blocks (to_target_blocks-IsTarget reader raws fm) rest,
          )))

names_unseen :
    (seen : List Text) (name : Text) (ts : List TargetBlock)
    → All (λ t. has (seen ++ name ∷ []) t.name ≡ false) ts
    → has (map (λ t. t.name) ts) name ≡ false
names_unseen seen name [] h = refl
names_unseen seen name (t ∷ ts) (here, later) = ground (
  arith,
  names_unseen seen name ts later,
  has-append seen (name ∷ []) t.name,
  text_eq.beq_iff t.name name,
  text_eq.beq_iff name t.name,
)

unique_from-Distinct :
    (seen : List Text) (ts : List TargetBlock)
    → unique_from seen ts ≡ ok passed
    → Distinct (map (λ t. t.name) ts) × All (λ t. has seen t.name ≡ false) ts
unique_from-Distinct seen [] e = (tt, tt)
unique_from-Distinct seen (t ∷ ts) e =
    let (new, rest) = check-ok (not (has seen t.name)) _ (unique_from (seen ++ t.name ∷ []) ts) e in
    let (distinct, unseen) = unique_from-Distinct (seen ++ t.name ∷ []) ts rest in
    (
      (names_unseen seen t.name ts unseen, distinct),
      (
        ground arith,
        All-of (λ u. has seen u.name ≡ false) (λ u. has (seen ++ t.name ∷ []) u.name ≡ false)
            (λ u h. ground (arith, has-append seen (t.name ∷ []) u.name)) ts unseen,
      ),
    )

abbrev pub WellFormed : BuildDoc → Type 0
WellFormed doc = All IsTarget doc.targets × Distinct (map (λ t. t.name) doc.targets)

pub parse_build_doc-WellFormed :
    (reader : Reader) (text : Text) (doc : BuildDoc)
    → parse_build_doc reader text true ≡ ok doc
    → WellFormed doc
unfolding parse_build_doc extract_targets assert_unique_names
parse_build_doc-WellFormed reader text doc e =
    let ((front, body), _, e1) = >>=-eq-ok (split_front_matter text) (parse_parts reader true) e in
    let (fm, _, e2) =
      >>=-eq-ok (normalize_front_matter reader front) (parse_body reader true body) e1 in
    let (targets, extracted, e3) =
      >>=-eq-ok (extract_targets reader body fm true) (unique_doc fm) e2 in
    let (unique, made) =
      passed-ok (assert_unique_names targets) (ok (record { front_matter = fm; targets = targets }))
        e3 in
    let (raws, _, e4) =
      >>=-eq-ok (extract_raws 0 outside (split_lines body))
        (λ raws. to_target_blocks reader raws fm true) extracted in
    subst WellFormed (ok-injective made) (
      OnOk-ok (All IsTarget) _ targets (to_target_blocks-IsTarget reader raws fm) e4,
      (unique_from-Distinct [] targets unique).0,
    )
