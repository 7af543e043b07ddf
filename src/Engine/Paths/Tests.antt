-- ===== src/Engine/Paths/Tests.antt =====
-- A workspace in which one file exists.
use makedown.Base.{
  Text, lit, text_eq, nat_eq, list_eqb, list_eq, Option, none, some, List, [], ◌∷◌, ◌++◌, ◌==◌,
  refl, ◌≡◌, if◌then◌else◌,
}
use makedown.Engine.Paths.{
  parts, resolve, is_absolute_any_os, relative, is_within, resolve_in_workspace,
  realpath_deepest_existing, real_resolve_in_workspace,
}
use makedown.Engine.Paths.Inside.{Plain, DeepestAt, real_resolve_in_workspace-Inside}

abbrev work : List Text
work = lit "home" ∷ lit "w" ∷ []

-- The workspace's directory is a link.
abbrev realpath : List Text → Option (List Text)
realpath path =
    if path == work
    then some (lit "data" ∷ [])
    else if path == work ++ lit "in" ∷ []
    then some (lit "data" ∷ lit "in" ∷ [])
    else none

real_resolve_in_workspace-Inside_example :
    ((first : Text) × (rest : List Text) × (work ++ lit "in" ∷ lit "a.md" ∷ []
        ≡ work ++ first ∷ rest)
      × Plain (first ∷ rest))
    × ((root_real : List Text) × (below : List Text) × (front : List Text) × (back : List Text)
        × (realpath work ≡ some root_real)
        × DeepestAt realpath (work ++ lit "in" ∷ lit "a.md" ∷ []) front back (root_real ++ below))
unfolding real_resolve_in_workspace list_eqb resolve_in_workspace is_absolute_any_os relative
    resolve parts is_within realpath_deepest_existing
real_resolve_in_workspace-Inside_example =
    real_resolve_in_workspace-Inside realpath work (lit "x/.././in//a.md")
      (work ++ lit "in" ∷ lit "a.md" ∷ []) (refl, (refl, tt)) refl
