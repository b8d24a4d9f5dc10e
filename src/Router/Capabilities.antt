-- ===== src/Router/Capabilities.antt =====
-- router/capabilities.py: what a deployment can do, closed under implication.
--
-- Sets are lists. The order in which a set gives its elements does not matter to the code; here it
-- is the order of the list.
pub mod Closure
use llm_fabric.Prelude.{
  ℕ, zero, suc, ◌+◌, Bool, true, false, not, ◌&&◌, Option, none, some, List, [], ◌∷◌, ◌++◌, String,
  ◌==◌, string_eq, contains, add, keep, length, or_else, if◌then◌else◌,
}

abbrev pub json_schema : String
json_schema = "json_schema"

abbrev pub structured_output : String
structured_output = "structured_output"

-- `IMPLIES.get(capability, frozenset())`
unfoldable pub implies : String → List String
implies capability = if capability == json_schema then structured_output ∷ [] else []

-- The inner loop: what is implied and new goes to the effective set and to the pending list.
unfoldable pub add_implied : List String → List String → List String → List String × List String
add_implied [] effective pending = (effective, pending)
add_implied (c ∷ cs) effective pending =
    if contains c effective
    then add_implied cs effective pending
    else add_implied cs (add c effective) (c ∷ pending)

-- The `while` loop, one round for each unit of fuel. `pending` is written with its end in front.
unfoldable pub expand : ℕ → List String → List String → Option (List String)
unfolding implies add_implied
expand n effective [] = some effective
expand zero effective (p ∷ pending) = none
expand (suc n) effective (p ∷ pending) =
    let next = add_implied (implies p) effective pending in expand n next.0 next.1

-- `_closure`
unfoldable pub closure : List String → Option (List String)
unfolding expand
closure declared = expand (length declared + 1) declared declared

pub record CapabilityVector : Type 0 where
  pub declared : List String
  pub effective : List String

-- The vector with the field that `__post_init__` computes.
unfoldable pub vector : List String → CapabilityVector
unfolding closure
vector declared = record { declared = declared; effective = or_else (closure declared) [] }

unfoldable pub has : String → CapabilityVector → Bool
has capability v = contains capability v.effective

unfoldable pub missing : List String → CapabilityVector → List String
missing required v = keep (λ c. not (contains c v.effective)) required

unfoldable pub satisfies : List String → CapabilityVector → Bool
satisfies [] v = true
satisfies (c ∷ cs) v = contains c v.effective && satisfies cs v

unfoldable pub union : CapabilityVector → CapabilityVector → CapabilityVector
unfolding vector
union v w = vector (v.declared ++ w.declared)
