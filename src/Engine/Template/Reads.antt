-- ===== src/Engine/Template/Reads.antt =====
-- What a prompt is rendered from: the references that the format's parser finds in it, and no others.
use makedown.Base.{
  ℕ, zero, suc, ◌+◌, Text, text_eq, trim, Bool, true, Option, none, some, or_default, is_some, List,
  [], ◌∷◌, ◌++◌, map, has, has-append, All, All-mem, length, Result, ok, ◌>>=◌, ◌≡◌, refl, ap, sym,
  ◌∙◌, subst, arith, Bool-cases, Option-cases, inl, inr, eq_refl,
}
use makedown.Base.Map.{Map, get}
use makedown.Types.{TargetBlock, BuildDoc}
use makedown.Refs.{bare_ref}
use makedown.Format.Lines.{match_at, refs_from, refs_in_body, add_ref}
use makedown.Format.Parse.{Reader}
use makedown.Format.Parse.Target.{parse_build_doc, declared_refs}
use makedown.Format.Parse.WellFormed.{
  IsTarget, Declared, may_read-declared_refs, parse_build_doc-WellFormed,
}
use makedown.Engine.Template.{
  RenderError, Sources, read_ref_content, replace_async, render_read, render_ref, render_template,
  suffix_of, apply_suffix,
}

has-add_ref :
    (refs : List Text) (r ref : Text) → has refs ref ≡ true → has (add_ref refs r) ref ≡ true
has-add_ref refs r ref h = ground (arith, Bool-cases (has refs r), has-append refs (r ∷ []) ref)

add_ref-has : (refs : List Text) (r : Text) → has (add_ref refs r) r ≡ true
add_ref-has refs r = ground (arith, Bool-cases (has refs r), has-append refs (r ∷ []) r, eq_refl r)

-- What was found stays found.
refs_from-has :
    (skip : ℕ) (s : Text) (refs : List Text) (ref : Text)
    → has refs ref ≡ true
    → has (refs_from skip s refs) ref ≡ true
refs_from-has skip [] refs ref h = h
refs_from-has (suc skip) (c ∷ s) refs ref h = refs_from-has skip s refs ref h
refs_from-has zero (c ∷ s) refs ref h =
    let found_in : Option Text → List Text = λ o. elim o [
      | none ↦ refs_from 0 s refs
      | some inside ↦ refs_from (length inside + 3) s (add_ref refs (bare_ref (trim inside)))
    ] in
    elim (Option-cases (match_at (c ∷ s))) [
      | inl none_here ↦
          subst (λ o. has (found_in o) ref ≡ true) (sym none_here) (refs_from-has 0 s refs ref h)
      | inr (inside, found) ↦
          subst (λ o. has (found_in o) ref ≡ true) (sym found)
            (refs_from-has (length inside + 3) s (add_ref refs (bare_ref (trim inside))) ref
              (has-add_ref refs (bare_ref (trim inside)) ref h))
    ]

-- Two ways of replacing that agree on the references that are found give the same text.
replace_async-agree :
    (f g : Text → Result RenderError Text) (skip : ℕ) (s : Text) (refs : List Text)
    → ((inside : Text)
        → has (refs_from skip s refs) (bare_ref (trim inside)) ≡ true
        → f inside ≡ g inside)
    → replace_async f skip s ≡ replace_async g skip s
unfolding replace_async
replace_async-agree f g skip [] refs h = refl
replace_async-agree f g (suc skip) (c ∷ s) refs h = replace_async-agree f g skip s refs h
replace_async-agree f g zero (c ∷ s) refs h =
    let found_in : Option Text → List Text = λ o. elim o [
      | none ↦ refs_from 0 s refs
      | some inside ↦ refs_from (length inside + 3) s (add_ref refs (bare_ref (trim inside)))
    ] in
    let out : (Text → Result RenderError Text) → Option Text → Result RenderError Text = λ f o.
      elim o [
        | none ↦ replace_async f 0 s >>= λ rest. ok (c ∷ rest)
        | some inside ↦ f inside >>= λ replacement.
            replace_async f (length inside + 3) s >>= λ rest. ok (replacement ++ rest)
      ] in
    let agree : (o : Option Text)
        → ((inside : Text) → has (found_in o) (bare_ref (trim inside)) ≡ true → f inside ≡ g inside)
        → out f o ≡ out g o =
      λ o.
        elim o
          as (λ o.
            ((inside : Text)
              → has (found_in o) (bare_ref (trim inside)) ≡ true
              → f inside ≡ g inside)
            → out f o ≡ out g o) [
              | none ↦
                  λ k. ap (λ r. r >>= λ rest. ok (c ∷ rest)) (replace_async-agree f g 0 s refs k)
              | some inside ↦ λ k.
                  let seen = add_ref refs (bare_ref (trim inside)) in
                  let here = k inside (
                    refs_from-has (length inside + 3) s seen (bare_ref (trim inside))
                      (add_ref-has refs (bare_ref (trim inside)))) in
                  let later = replace_async-agree f g (length inside + 3) s seen k in
                  ap
                    (λ r. r >>= λ replacement.
                      replace_async f (length inside + 3) s >>= λ rest. ok (replacement ++ rest))
                    here
                  ∙ ap (λ t. g inside >>= λ replacement. t >>= λ rest. ok (replacement ++ rest))
                      later
            ] in
    agree (match_at (c ∷ s)) h

module _ (src src' : Sources) (outputs : Map Text Text) (preview : Bool)
    (bindings : Map Text Text) where
  render_ref-agree :
      (inside : Text)
      → read_ref_content src outputs (bare_ref (trim inside))
        ≡ read_ref_content src' outputs (bare_ref (trim inside))
      → render_ref src outputs preview bindings inside
        ≡ render_ref src' outputs preview bindings inside
  unfolding render_ref
  render_ref-agree inside e =
      let trimmed = trim inside in
      let ref = bare_ref trimmed in
      ap
        (λ r. elim (get bindings ref) as (λ _. Result RenderError Text) [
          | some bound ↦ ok (apply_suffix bound (suffix_of trimmed))
          | none ↦ render_read preview (is_some (get outputs ref)) ref (suffix_of trimmed) r
        ])
        e

  -- A text whose references are declared renders alike over sources that agree on what is declared.
  render_template-agree :
      (t : TargetBlock) (text : Text)
      → Declared t.header text
      → ((ref : Text)
          → has (map bare_ref (declared_refs t.header)) ref ≡ true
          → read_ref_content src outputs ref ≡ read_ref_content src' outputs ref)
      → render_template src outputs preview bindings text
        ≡ render_template src' outputs preview bindings text
  unfolding render_template refs_in_body
  render_template-agree t text declared agree =
      replace_async-agree (render_ref src outputs preview bindings)
        (render_ref src' outputs preview bindings) 0 text []
        (λ inside here. render_ref-agree inside (
          agree (bare_ref (trim inside)) (
            All-mem (λ ref. has (map bare_ref (declared_refs t.header)) ref ≡ true)
              (refs_in_body text) (bare_ref (trim inside))
              (subst (λ l. All (λ ref. has l ref ≡ true) (refs_in_body text))
                (sym (may_read-declared_refs t.header)) declared)
              here)))

All-at :
    (P : TargetBlock → Type 0) (before after : List TargetBlock) (t : TargetBlock)
    → All P (before ++ t ∷ after)
    → P t
All-at P [] after t h = h.0
All-at P (u ∷ before) after t h = All-at P before after t h.1

-- In a document that is parsed strictly, the prompt and the system prompt of a target depend only on what
-- its declared inputs read as, and on the bindings: over two workspaces where each declared reference
-- reads alike, they render alike, errors included.
pub render_template-parse_build_doc :
    (reader : Reader) (text : Text) (doc : BuildDoc) (before after : List TargetBlock)
    (t : TargetBlock) (src src' : Sources) (outputs : Map Text Text) (preview : Bool)
    (bindings : Map Text Text)
    → parse_build_doc reader text true ≡ ok doc
    → doc.targets ≡ before ++ t ∷ after
    → ((ref : Text)
        → has (map bare_ref (declared_refs t.header)) ref ≡ true
        → read_ref_content src outputs ref ≡ read_ref_content src' outputs ref)
    → (render_template src outputs preview bindings t.body
        ≡ render_template src' outputs preview bindings t.body)
      × (render_template src outputs preview bindings (or_default t.header.system [])
          ≡ render_template src' outputs preview bindings (or_default t.header.system []))
render_template-parse_build_doc reader text doc before after t src src' outputs preview bindings e
      at agree =
    let all = (parse_build_doc-WellFormed reader text doc e).0 in
    let (_, _, _, body, system) = All-at IsTarget before after t (subst (All IsTarget) at all) in
    (
      render_template-agree src src' outputs preview bindings t t.body body agree,
      render_template-agree src src' outputs preview bindings t (or_default t.header.system [])
          system agree,
    )
