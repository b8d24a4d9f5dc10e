-- ===== src/Lib.antt =====
-- llm-fabric: the request path of the inference gateway.
--
-- llm-fabric routes a chat request to one of several model deployments. A planner ranks the
-- deployments and gives a fallback graph with a budget; the engine calls the selected deployment
-- and, when that fails with an error it may retry, walks along the graph; a health tracker keeps a
-- circuit breaker for each deployment, which the planner asks and the engine reports to; the tenancy
-- layer keeps what belongs to one tenant apart from the others; and the promotion store says how far
-- a deployment is on its way to production, which the registry is overlaid with and the planner reads.
--
-- Files and the code they model (paths from the root of the repository):
--   Errors              src/llm_fabric/errors.py: the exception classes, `isinstance`, `status_code`
--   Router.Fallback     src/llm_fabric/router/fallback.py
--     Reason            `FallbackReason`, `reason_for_error`
--     Graph             `FallbackEdge`, `FallbackGraph` with `from_chain`, `next_hop`, `restricted_to`
--     Ledger            `FallbackBudget`, `FallbackLedger`, `FallbackHop`, `FallbackTrace`
--   Router.Health       src/llm_fabric/router/health.py
--     Breaker           `BreakerPolicy`, `_State` and what each call does to the state of a deployment
--     Tracker           `HealthTracker`, one function for each method; `step` for any of them
--   Router.Tiers        src/llm_fabric/router/grades.py and tiers.py: grades, service tiers, their names
--   Router.Capabilities src/llm_fabric/router/capabilities.py: the vector and its closure
--   Router.Registry     src/llm_fabric/router/registry.py: a `ModelSpec` and what it answers
--     Models            `ModelRegistry`: its tables, `_validate_references`, `known`, `replace`
--   Router.Intent       src/llm_fabric/router/intent_routing.py, and of intent/schema.py the
--                       classification that routing reads
--   Router.Policy       src/llm_fabric/router/policy.py: the policies and their weights
--     Parse             `parse_policy`
--     Features, Numbers `_raw_features`, `_normalise` and what they call
--     Score             `score_candidates`
--   Router.Plan         src/llm_fabric/router/plan.py: `_graph_for`, the fallback graph of a plan
--     Request           `RouteRequest`, `TenantRoutingPolicy`, `ExclusionRule`
--     Candidates        `_candidates`
--     Limits            `_resolve_policy`, `_capabilities_for`, the strictest of several limits
--     Filter            `RoutePlanner` and `_filter`
--     Narrow            `_narrow_to_intent_policy` and `_narrow_to_approved`
--     Planner           `plan` and `require_plan`
--   Router.Engine       src/llm_fabric/router/engine.py
--     Walk              `Attempt`, `RouteDecision`, `_Walk.advance`
--     Complete          `Router._start` and `Router.complete`
--   Tenancy.Store       src/llm_fabric/tenancy/store.py: `TenantScopedStore` and its audit
--   Tenancy.Scope       src/llm_fabric/tenancy/scope.py: `TenantScope` and its `user_key`
--   Tenancy.Quota       src/llm_fabric/tenancy/quota.py: `QuotaPolicy`, `_Counters`
--     Ledger            `QuotaLedger`: its counters, as objects that the methods share
--     Requests          `admit`, the concurrency slots, `record_usage`, `snapshot`
--     Calls             any method of the ledger as one step
--   Models.Promotion    src/llm_fabric/models/promotion.py: `validate_transition`, `apply_transition`
--     Overlay           `_approval_evidence_valid`, `apply_overlay`
--   Identity.Revocation src/llm_fabric/identity/revocation.py: `InMemoryRevocationStore`
--   Prelude             what the modules share: tests, lists read as sets, dictionaries, results, floats
--
-- How the code is read:
--   * A method is a function from the old state to the new one; the methods of the tracker and of the
--     store hold a lock, so an interleaving of requests is a list of calls, and `step` performs one.
--   * A class with checks in `__post_init__` is a record with a function that makes it or fails with
--     the class of the exception. A `FabricError` is its class and its text.
--   * A dictionary is an association list in insertion order, a set a list with the test `contains`.
--   * A float is a value of the record `Float`, a type with the operations and comparisons that the
--     code uses; a theorem that needs laws of comparison takes `FloatLaws`. Integers that the code
--     counts up from 0 are native natural numbers, where `max(0, n - 1)` is subtraction; integers that
--     a caller gives are `ℤ` until they have been checked. Python's integers do not overflow.
--   * A clock reading is an argument of the call that makes it; the quota ledger's is in whole
--     microseconds since the epoch.
--   * The sentence of a refusal is a constructor with the values that the sentence shows.
--   * `complete` awaits the provider, which is not part of this code. The argument `replies` says, for
--     each attempt, which calls of the health tracker other requests make while it waits, and how the
--     call ends; a cancelled task or a foreign exception is `aborted`. Theorems hold for any `replies`.
--   * The `while` loop of `complete` runs on fuel, one unit for each attempt that the configuration
--     allows: each round makes one attempt. A loop that ran out of it would answer `out_of_fuel`.
--
--   * `_filter` asks the health tracker, and a question may change it: the tracker is passed from one
--     candidate to the next, with one clock reading for each. The tests that do not ask it are a list
--     of pairs of a test and its rule, of which the first that holds decides, as `continue` does.
--   * A promotion's artifacts are files. What `artifact_ref` makes of one is part of the request, and
--     whether a recorded file is unchanged is the argument `valid`; theorems say what they ask of it.
--     A recorded identity that is an empty dictionary does not occur in a row that the code writes.
--   * The tables of `score_candidates` are keyed by a deployment's name; here a deployment's own values
--     are read, which is the same where a name stands for one deployment, as it does in a registry.
--     Equal numbers are numbers of which neither exceeds the other.
--
-- Not modelled: time stamps, random identifiers, spans, metrics and logging, the fields of a record
-- that no modelled function reads, the sentences and reports that explain a plan, its quality shadow,
-- reading configuration files, streaming, and the other packages of the program (context, serving,
-- gateway, storage, observability, evaluation and self-healing; of intent, all but the fields that
-- routing reads; of models, all but the promotion; of identity, all but the denylist).
pub mod Errors
pub mod Identity
pub mod Models
pub mod Prelude
pub mod Router
pub mod Tenancy
