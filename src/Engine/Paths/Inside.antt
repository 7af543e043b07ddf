-- ===== src/Engine/Paths/Inside.antt =====
-- What resolveInWorkspace and realResolveInWorkspace return lies inside the workspace.
use makedown.Base.{
  zero, suc, length, append_assoc, Option-cases, ◌⊎◌, ℕ, Text, text_eq, nat_eq, list_eqb, lit, Bool,
  true, false, not, ◌&&◌, ◌||◌, ◌==◌, Option, none, some, List, [], ◌∷◌, ◌++◌, has, All, All-append,
  if◌then◌else◌, Result, ok, err, ◌≡◌, refl, ap, sym, ◌∙◌, subst, arith, inl, inr, Bool-cases,
  List-cases, ok-injective, if-ok, some_inj, append-nil, ◌≢◌,
}
use makedown.Engine.Paths.{
  PathEscapeError, nul_byte, absolute_path, escapes_root, through_symlink, deepest, followed,
  onto_part, parts, join_parts, without_last, step, walk_parts, resolve, is_absolute,
  is_absolute_any_os, ups, relative_parts, relative, climbs, is_within, resolve_in_workspace,
  realpath_deepest_existing, real_resolve_in_workspace,
}

-- A name of one file: no empty name, dot or two dots, and no slash.
abbrev pub is_plain : Text → Bool
is_plain s = not (s == []) && not (s == lit ".") && not (s == lit "..") && not (has s b'/')

abbrev pub Plain : List Text → Type 0
Plain = All (λ s. is_plain s ≡ true)

onto_part-no_slash :
    (c : ℕ) (ss : List Text)
    → (c == b'/') ≡ false
    → All (λ s. has s b'/' ≡ false) ss
    → All (λ s. has s b'/' ≡ false) (onto_part c ss)
onto_part-no_slash c [] other h = (ground (arith, other), tt)
onto_part-no_slash c (s ∷ ss) other h = (ground (arith, other, h.0), h.1)

parts-no_slash : (p : Text) → All (λ s. has s b'/' ≡ false) (parts p)
unfolding parts
parts-no_slash [] = (refl, tt)
parts-no_slash (c ∷ p) = elim (Bool-cases (c == b'/')) [
  | inl slash ↦ rw slash (refl, parts-no_slash p)
  | inr other ↦ rw other (onto_part-no_slash c (parts p) other (parts-no_slash p))
]

without_last-Plain : (ss : List Text) → Plain ss → Plain (without_last ss)
without_last-Plain [] h = tt
without_last-Plain (s ∷ []) h = tt
without_last-Plain (s ∷ t ∷ ss) h = (h.0, without_last-Plain (t ∷ ss) h.1)

step-Plain :
    (at : List Text) (part : Text) → Plain at → has part b'/' ≡ false → Plain (step at part)
step-Plain at part h slashless = elim (Bool-cases (part == [] || part == lit ".")) [
  | inl stays ↦ rw stays h
  | inr other ↦ elim (Bool-cases (part == lit "..")) [
    | inl back ↦ rw (other, back) (without_last-Plain at h)
    | inr down ↦
        rw (other, down)
          (All-append (λ s. is_plain s ≡ true) at (part ∷ []) h
            (ground (arith, other, down, slashless), tt))
  ]
]

walk_parts-Plain :
    (at ps : List Text) → Plain at → All (λ s. has s b'/' ≡ false) ps → Plain (walk_parts at ps)
walk_parts-Plain at [] h slashless = h
walk_parts-Plain at (p ∷ ps) h slashless =
    walk_parts-Plain (step at p) ps (step-Plain at p h slashless.0) slashless.1

-- A relative path that does not climb leads down.
ups-climbs : (s : Text) (ss more : List Text) → climbs (join_parts (ups (s ∷ ss) ++ more)) ≡ true
unfolding list_eqb
ups-climbs s [] [] = refl
ups-climbs s [] (m ∷ more) = refl
ups-climbs s (t ∷ ss) more = refl

relative-down :
    (from to : List Text) → climbs (relative from to) ≡ false → to ≡ from ++ relative_parts from to
unfolding relative
relative-down [] to h = refl
relative-down (s ∷ from) [] h =
    let up =
      ap (λ ps. climbs (join_parts ps)) (sym (append-nil (ups (s ∷ from))))
      ∙ ups-climbs s from [] in
    absurd (ground (arith, up, h))
relative-down (s ∷ from) (t ∷ to) h = elim (Bool-cases (s == t)) [
  | inl same ↦
      let below = relative-down from to (rw same at h) in
      rw same (ap (λ x. x ∷ to) (sym ((text_eq.beq_iff s t).0 same)) ∙ ap (λ ss. s ∷ ss) below)
  | inr other ↦ absurd (ground (arith, ups-climbs s from (t ∷ to), rw other at h))
]

All-below : (P : Text → Type 0) (above below : List Text) → All P (above ++ below) → All P below
All-below P [] below h = h
All-below P (s ∷ above) below h = All-below P above below h.1

moved : (rel : Text) → (rel == []) ≡ false → rel ≢ []
moved rel h e = ground (arith, text_eq.beq_iff rel [])

join_empty : (from to : List Text) → relative_parts from to ≡ [] → relative from to ≡ []
unfolding relative
join_empty from to e = ap join_parts e

or-false : (a b c : Bool) → (a || b || c) ≡ false → (a ≡ false) × (b ≡ false) × (c ≡ false)
or-false a b c h = ground arith

base-Plain : (b : Bool) (root : List Text) → Plain root → Plain (if b then [] else root)
base-Plain true root h = tt
base-Plain false root h = h

resolve-Plain : (root : List Text) (path : Text) → Plain root → Plain (resolve root path)
unfolding resolve
resolve-Plain root path h =
    walk_parts-Plain (if is_absolute path then [] else root) (parts path)
      (base-Plain (is_absolute path) root h) (parts-no_slash path)

-- Where the lexical check passes, the path leads from the root down by at least one name.
resolve_in_workspace-Inside :
    (root : List Text) (path : Text) (abs : List Text)
    → Plain root
    → resolve_in_workspace root path ≡ ok abs
    → (first : Text) × (rest : List Text) × (abs ≡ root ++ first ∷ rest) × Plain (first ∷ rest)
unfolding resolve_in_workspace
resolve_in_workspace-Inside root path abs plain e =
    let to = resolve root path in
    let rel = relative root to in
    let rejected = rel == [] || climbs rel || is_absolute rel in
    let guarded : Result PathEscapeError (List Text) =
      if rejected then err (escapes_root path) else ok to in
    let (_, e1) =
      if-ok (has path 0) (nul_byte path)
        (if is_absolute_any_os path then err (absolute_path path) else guarded) e in
    let (not_absolute, e2) = if-ok (is_absolute_any_os path) (absolute_path path) guarded e1 in
    let (held, made) = if-ok rejected (escapes_root path) (ok to) e2 in
    let (moves, level, _) = or-false (rel == []) (climbs rel) (is_absolute rel) held in
    let down = relative-down root to level in
    let all_plain : Plain to = resolve-Plain root path plain in
    elim (List-cases (relative_parts root to)) [
      | inl empty ↦ absurd (moved rel moves (join_empty root to empty))
      | inr (first, rest, below) ↦
          let there = down ∙ ap (λ ss. root ++ ss) below in
          (
            first,
            rest,
            sym (ok-injective made) ∙ there,
            All-below (λ s. is_plain s ≡ true) root (first ∷ rest) (subst Plain there all_plain),
          )
    ]

within_level :
    (rel : Text)
    → (rel == [] || not (climbs rel) && not (is_absolute rel)) ≡ true
    → climbs rel ≡ false
unfolding list_eqb
within_level [] h = refl
within_level (c ∷ rel) h = ground (arith, h)

within-below :
    (root child : List Text)
    → is_within root child ≡ true
    → (below : List Text) × (child ≡ root ++ below)
unfolding is_within
within-below root child h =
    (relative_parts root child, relative-down root child (within_level (relative root child) h))

fails : {abs : List Text} (x : PathEscapeError) → some (err x) ≢ some (ok abs)
fails x e = cc

-- The checks that a path has passed.
passed_checks :
    (realpath : List Text → Option (List Text)) (path : Text) (abs : List Text)
    (r : Result PathEscapeError (List Text)) (o : Option (List Text))
    → followed realpath path r o ≡ some (ok abs)
    → (r ≡ ok abs)
      × (root_real : List Text) × (o ≡ some root_real)
      × (is_within root_real (realpath_deepest_existing realpath abs) ≡ true)
passed_checks realpath path abs (err x) o e = absurd (fails x e)
passed_checks realpath path abs (ok to) none e = cc
passed_checks realpath path abs (ok to) (some root_real) e =
    elim (Bool-cases (is_within root_real (realpath_deepest_existing realpath to))) [
      | inl within ↦
          let same = ok-injective (some_inj (rw within at e)) in
          (
            ap ok same,
            root_real,
            refl,
            ap (λ p. is_within root_real (realpath_deepest_existing realpath p)) (sym same)
                ∙ within,
          )
      | inr outside ↦ absurd (fails (through_symlink path) (rw outside at e))
    ]

-- Of the paths below `at` along these names, none exists.
abbrev pub NoneBelow : (List Text → Option (List Text)) → List Text → List Text → Type 0
NoneBelow realpath at [] = Unit
NoneBelow realpath at (s ∷ ss) =
    (realpath (at ++ s ∷ []) ≡ none) × NoneBelow realpath (at ++ s ∷ []) ss

-- `front` is the longest part of the path that exists, and `real` is its real place; where no part
-- exists, not even the root, both are the root.
abbrev pub DeepestAt :
    (List Text → Option (List Text)) → List Text → List Text → List Text → List Text → Type 0
DeepestAt realpath path front back real =
    (path ≡ front ++ back)
    × NoneBelow realpath front back
    × ((realpath front ≡ some real) ⊎ ((front ≡ []) × (realpath [] ≡ none) × (real ≡ [])))

module _ (realpath : List Text → Option (List Text)) where
  NoneBelow-snoc :
      (at ss : List Text) (s : Text)
      → NoneBelow realpath at ss
      → realpath ((at ++ ss) ++ s ∷ []) ≡ none
      → NoneBelow realpath at (ss ++ s ∷ [])
  NoneBelow-snoc at [] s h e = (subst (λ p. realpath (p ++ s ∷ []) ≡ none) (append-nil at) e, tt)
  NoneBelow-snoc at (x ∷ ss) s h e = (
    h.0,
    NoneBelow-snoc (at ++ x ∷ []) ss s h.1
        (subst (λ p. realpath (p ++ s ∷ []) ≡ none) (sym (append_assoc at (x ∷ []) ss)) e),
  )

  last_segment :
      (s : Text) (ss : List Text)
      → (last : Text) × (s ∷ ss ≡ without_last (s ∷ ss) ++ last ∷ [])
        × (length (without_last (s ∷ ss)) ≡ length ss)
  last_segment s [] = (s, refl, refl)
  last_segment s (t ∷ ss) =
      let (last, split, size) = last_segment t ss in (last, ap (λ l. s ∷ l) split, ap suc size)

  or_root : Option (List Text) → List Text
  or_root none = []
  or_root (some real) = real

  deepest-DeepestAt :
      (n : ℕ) (path : List Text)
      → length path ≡ n
      → (front : List Text) × (back : List Text) × DeepestAt realpath path front back
          (deepest realpath n path)
  unfolding or_root
  deepest-DeepestAt zero [] e = elim (Option-cases (realpath [])) [
    | inl missing ↦ ([], [], (refl, tt, inr (refl, missing, ap or_root missing)))
    | inr (real, found) ↦ ([], [], (refl, tt, inl (found ∙ ap some (sym (ap or_root found)))))
  ]
  deepest-DeepestAt zero (s ∷ ss) e = absurd (ground (arith, e))
  deepest-DeepestAt (suc n) [] e = absurd (ground (arith, e))
  deepest-DeepestAt (suc n) (s ∷ ss) e = elim (Option-cases (realpath (s ∷ ss))) [
    | inr (real, found) ↦
        rw (deepest, found) (s ∷ ss, [], (sym (append-nil (s ∷ ss)), tt, inl found))
    | inl missing ↦
        let (last, split, size) = last_segment s ss in
        let (front, back, (cut, below, place)) =
          deepest-DeepestAt n (without_last (s ∷ ss)) (omega (arith, e, size)) in
        let whole = split ∙ ap (λ p. p ++ last ∷ []) cut in
        rw (deepest, missing)
          (
            front,
            back ++ last ∷ [],
            (
              whole ∙ append_assoc front back (last ∷ []),
              NoneBelow-snoc front back last below (subst (λ p. realpath p ≡ none) whole missing),
              place,
            ),
          )
  ]

pub real_resolve_in_workspace-Inside :
    (realpath : List Text → Option (List Text)) (root : List Text) (path : Text) (abs : List Text)
    → Plain root
    → real_resolve_in_workspace realpath root path ≡ some (ok abs)
    → ((first : Text) × (rest : List Text) × (abs ≡ root ++ first ∷ rest) × Plain (first ∷ rest))
      × ((root_real : List Text) × (below : List Text) × (front : List Text) × (back : List Text)
          × (realpath root ≡ some root_real)
          × DeepestAt realpath abs front back (root_real ++ below))
unfolding real_resolve_in_workspace realpath_deepest_existing
real_resolve_in_workspace-Inside realpath root path abs plain e =
    let (lexical, root_real, there, within) =
      passed_checks realpath path abs (resolve_in_workspace root path) (realpath root) e in
    let (below, same) = within-below root_real (realpath_deepest_existing realpath abs) within in
    let (front, back, at) = deepest-DeepestAt realpath (length abs) abs refl in
    (
      resolve_in_workspace-Inside root path abs plain lexical,
      (root_real, below, front, back, there, subst (DeepestAt realpath abs front back) same at),
    )
