-- ===== src/Router/Capabilities/Closure.antt =====
-- The closure loop ends, and what it ends with.
use llm_fabric.Prelude.{
  ℕ, zero, suc, ◌+◌, ◌≤◌, ◌≡◌, refl, ap, ◌∙◌, true, false, ◌&&◌, ◌||◌, some, List, [], ◌∷◌, String,
  ◌==◌, string_eq, contains, contains-add, contains-add_self, add, length, if◌then◌else◌, arith,
  Bool-cases, inl, inr, eq_of_beq, beq_refl,
}
use llm_fabric.Router.Capabilities.{
  json_schema, structured_output, implies, add_implied, expand, closure,
}

add_implied-full :
    (p : String) (effective pending : List String)
    → contains structured_output effective ≡ true
    → add_implied (implies p) effective pending ≡ (effective, pending)
unfolding add_implied implies
add_implied-full p effective pending h = elim (Bool-cases (p == json_schema)) [
  | inl json ↦ rw (json, h)
  | inr other ↦ rw other
]

expand-full :
    (n : ℕ) (effective pending : List String)
    → contains structured_output effective ≡ true
    → length pending ≤ n
    → expand n effective pending ≡ some effective
unfolding expand
expand-full n effective [] h enough = refl
expand-full zero effective (p ∷ ps) h enough = absurd (omega arith)
expand-full (suc n) effective (p ∷ ps) h enough =
    ap (λ (r : List String × List String). expand n r.0 r.1) (add_implied-full p effective ps h)
    ∙ expand-full n effective ps h (omega arith)

add_implied-new :
    (p : String) (effective pending : List String)
    → contains structured_output effective ≡ false
    → add_implied (implies p) effective pending ≡ (
        if p == json_schema
        then (add structured_output effective, structured_output ∷ pending)
        else (effective, pending))
unfolding add_implied implies
add_implied-new p effective pending h = elim (Bool-cases (p == json_schema)) [
  | inl json ↦ rw (json, h)
  | inr other ↦ rw other
]

-- The closure of the pending capabilities, from an effective set without structured output.
expand-new :
    (n : ℕ) (effective pending : List String)
    → contains structured_output effective ≡ false
    → length pending + 1 ≤ n
    → expand n effective pending
      ≡ some (if contains json_schema pending then add structured_output effective else effective)
unfolding expand contains
expand-new n effective [] h enough = refl
expand-new zero effective (p ∷ ps) h enough = absurd (omega arith)
expand-new (suc n) effective (p ∷ ps) h enough =
    rw (add_implied-new p effective ps h, expand)
      (elim (Bool-cases (p == json_schema)) [
        | inl json ↦ ground (
          arith,
          expand-full n (add structured_output effective) (structured_output ∷ ps)
              (contains-add_self structured_output effective),
          eq_of_beq p json_schema,
          beq_refl json_schema,
        )
        | inr other ↦
            ground (arith, expand-new n effective ps h, eq_of_beq json_schema p, beq_refl p)
      ])

-- The loop ends for every declared set, and a deployment has exactly the declared capabilities and,
-- where a JSON schema is declared, structured output.
pub closure_iff :
    (declared : List String)
    → (effective : List String) × (closure declared ≡ some effective)
      × ((c : String)
          → contains c effective
            ≡ (contains c declared || (c == structured_output && contains json_schema declared)))
unfolding closure
closure_iff declared = elim (Bool-cases (contains structured_output declared)) [
  | inl there ↦ (
    declared,
    expand-full (length declared + 1) declared declared there (omega arith),
    λ c. ground (arith, there, eq_of_beq c structured_output),
  )
  | inr new ↦ (
    (if contains json_schema declared then add structured_output declared else declared),
    expand-new (length declared + 1) declared declared new (omega arith),
    λ c. ground (arith, contains-add c structured_output declared),
  )
]
