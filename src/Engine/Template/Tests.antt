-- ===== src/Engine/Template/Tests.antt =====
-- A prompt over two workspaces that differ in a file that it does not declare.
use makedown.Base.{
  Text, lit, text_eq, nat_eq, list_eq, list_eqb, true, false, none, some, or_default, [], ◌∷◌, ◌==◌,
  refl, ◌≡◌, ok, if◌then◌else◌, subst, has, map, or-eq-true, inl, inr, index_of,
}
use makedown.Base.Map.{get}
use makedown.Refs.{bare_ref}
use makedown.Format.Parse.Target.{declared_refs}
use makedown.Format.Sample.{reader, doc, doc_text, doc_parses, block}
use makedown.Engine.Paths.{
  parts, resolve, is_absolute_any_os, relative, is_within, resolve_in_workspace,
  realpath_deepest_existing, real_resolve_in_workspace,
}
use makedown.Engine.Template.{Sources, read_ref_content, render_template}
use makedown.Engine.Template.Reads.{render_template-parse_build_doc}

abbrev sources : Text → Sources
sources other = record {
  root = lit "w" ∷ [];
  realpath = λ path. some path;
  read_file = λ path. if path == lit "w" ∷ lit "x" ∷ [] then ok (lit "text of x") else ok other;
  resolver = none;
}

read_x :
    read_ref_content (sources (lit "one")) [] (lit "x")
    ≡ read_ref_content (sources (lit "two")) [] (lit "x")
unfolding read_ref_content real_resolve_in_workspace list_eqb resolve_in_workspace
    is_absolute_any_os relative resolve parts is_within realpath_deepest_existing get
read_x = refl

same_x :
    (ref : Text)
    → has (map bare_ref (declared_refs block.header)) ref ≡ true
    → read_ref_content (sources (lit "one")) [] ref ≡ read_ref_content (sources (lit "two")) [] ref
unfolding bare_ref index_of
same_x ref h = elim (or-eq-true (lit "x" == ref) false h) [
  | inl same ↦
      subst
        (λ r.
          read_ref_content (sources (lit "one")) [] r ≡ read_ref_content (sources (lit "two")) [] r)
        ((text_eq.beq_iff (lit "x") ref).0 same) read_x
  | inr no_other ↦ cc
]

render_template-parse_build_doc_example :
    (render_template (sources (lit "one")) [] false [] block.body
      ≡ render_template (sources (lit "two")) [] false [] block.body)
    × (render_template (sources (lit "one")) [] false [] (or_default block.header.system [])
        ≡ render_template (sources (lit "two")) [] false [] (or_default block.header.system []))
render_template-parse_build_doc_example =
    render_template-parse_build_doc reader doc_text doc [] [] block (sources (lit "one"))
      (sources (lit "two")) [] false [] doc_parses refl same_x
