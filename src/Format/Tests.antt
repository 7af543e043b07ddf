-- ===== src/Format/Tests.antt =====
-- A policy and a document, each theorem at it.
use makedown.Base.{refl, arith, text_eq, nat_eq, true, some, ◌≡◌, ◌↔◌, ok}
use makedown.Types.{stochastic}
use makedown.Format.Policy.{
  decimal, number, parse_cache_policy, cache_policy_to_string, is_valid,
  parse_cache_policy-cache_policy_to_string,
}
use makedown.Format.Parse.WellFormed.{WellFormed, parse_build_doc-WellFormed}
use makedown.Format.Sample.{reader, doc, doc_text, doc_parses}

parse_cache_policy-cache_policy_to_string_example :
    (parse_cache_policy (some (cache_policy_to_string decimal (stochastic 30)))
      ≡ ok (stochastic 30))
    ↔ (is_valid (stochastic 30) ≡ true)
parse_cache_policy-cache_policy_to_string_example =
    parse_cache_policy-cache_policy_to_string decimal (stochastic 30) (λ n safe. refl) (omega arith)

-- 2 ^ 53 + 1 is read as the even one of its neighbours.
number_large : number 9007199254740993 ≡ 9007199254740992
unfolding number
number_large = refl

parse_build_doc-WellFormed_example : WellFormed doc
parse_build_doc-WellFormed_example = parse_build_doc-WellFormed reader doc_text doc doc_parses
