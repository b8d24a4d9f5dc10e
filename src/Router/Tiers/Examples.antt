-- ===== src/Router/Tiers/Examples.antt =====
-- Tests of the tiers' names and of the capabilities.
use llm_fabric.Prelude.{
  ◌≡◌, refl, arith, ◌&&◌, ◌||◌, some, none, List, [], ◌∷◌, String, ◌==◌, string_eq, contains,
}
use llm_fabric.Router.Tiers.{to_grade, parse_service_tier, parse_service_tier_codes}
use llm_fabric.Router.Tiers.Names.{tier_name, parse_tier_name}
use llm_fabric.Router.Capabilities.{json_schema, structured_output, closure}
use llm_fabric.Router.Capabilities.Closure.{closure_iff}

white_space_test : parse_service_tier " l07 " ≡ some 7
unfolding parse_service_tier
white_space_test = refl

out_of_range_test : parse_service_tier "L31" ≡ none
unfolding parse_service_tier
out_of_range_test = refl

parse_tier_name_example : parse_service_tier_codes (tier_name 30) ≡ some 30
parse_tier_name_example = parse_tier_name 30 (ground arith)

highest_grade_test : to_grade 30 ≡ to_grade 29
unfolding to_grade
highest_grade_test = refl

closure_iff_example :
    let declared : List String = "tools" ∷ "json_schema" ∷ [] in
    (effective : List String) × (closure declared ≡ some effective)
    × ((c : String)
        → contains c effective
          ≡ (contains c declared || (c == structured_output && contains json_schema declared)))
closure_iff_example = closure_iff ("tools" ∷ "json_schema" ∷ [])
