-- ===== src/Models/Promotion/Stages.antt =====
-- models/promotion.py: the stages that requests lead a deployment through on its way to approval.
use llm_fabric.Prelude.{
  ◌≤◌, ◌≡◌, ◌⊎◌, refl, sym, arith, Bool, false, List, [], ◌∷◌, String, length, Every, inl, inr,
}
use mathlib.Core.Path.{subst}
use llm_fabric.Prelude.Float.{Float}
use llm_fabric.Prelude.Dict.{Dict}
use llm_fabric.Router.Registry.{
  PromotionState, registered, probed, evaluated, shadow, approved, disabled, ModelSpec,
}
use llm_fabric.Models.Promotion.{Artifact, Row, PromotionConfig, Request, apply_transition}
use llm_fabric.Models.Promotion.Overlay.{served_as}
use llm_fabric.Models.Promotion.Moves.{
  Move, probe, evaluate, shadow_it, approve, back_to_registered, back_to_probed, back_to_evaluated,
  back_to_shadow, disable_registered, disable_probed, disable_evaluated, disable_shadow,
  disable_approved, enable, served, session, IsStep, apply_transition-Move,
}

-- The first list stands in the second, in its order; others may stand between and around.
abbrev pub Visits : List PromotionState → List PromotionState → Type 0
Visits [] seen = Unit
Visits (t ∷ ts) [] = ⊥
Visits (t ∷ ts) (s ∷ seen) = ((s ≡ t) × Visits ts seen) ⊎ Visits (t ∷ ts) seen

Visits-later :
    (ts : List PromotionState) (s : PromotionState) (seen : List PromotionState)
    → Visits ts seen
    → Visits ts (s ∷ seen)
Visits-later [] s seen v = tt
Visits-later (t ∷ ts) s seen v = inr v

Visits-tail :
    (t : PromotionState) (ts seen : List PromotionState) → Visits (t ∷ ts) seen → Visits ts seen
Visits-tail t ts [] v = elim v [ ]
Visits-tail t ts (s ∷ seen) (inl v) = Visits-later ts s seen v.1
Visits-tail t ts (s ∷ seen) (inr v) = Visits-later ts s seen (Visits-tail t ts seen v)

length-Visits : (ts seen : List PromotionState) → Visits ts seen → length ts ≤ length seen
length-Visits [] seen v = omega arith
length-Visits (t ∷ ts) [] v = elim v [ ]
length-Visits (t ∷ ts) (s ∷ seen) (inl v) = omega (arith, length-Visits ts seen v.1)
length-Visits (t ∷ ts) (s ∷ seen) (inr v) = omega (arith, length-Visits (t ∷ ts) seen v)

-- The stages that a deployment in a state has before it.
stages_left : PromotionState → List PromotionState
stages_left registered = probed ∷ evaluated ∷ shadow ∷ approved ∷ []
stages_left probed = evaluated ∷ shadow ∷ approved ∷ []
stages_left evaluated = shadow ∷ approved ∷ []
stages_left shadow = approved ∷ []
stages_left approved = []
stages_left disabled = probed ∷ evaluated ∷ shadow ∷ approved ∷ []

Visits-behind :
    (s : PromotionState) (seen : List PromotionState)
    → Visits (s ∷ stages_left s) seen
    → Visits (stages_left s) seen
Visits-behind s seen v = Visits-tail s (stages_left s) seen v

-- A move reaches the next stage, or leaves at least the stages that were left.
Visits-Move :
    {s t : PromotionState} (seen : List PromotionState)
    → Move s t
    → Visits (stages_left t) seen
    → Visits (stages_left s) (t ∷ seen)
unfolding stages_left
Visits-Move seen probe v = inl (refl, v)
Visits-Move seen evaluate v = inl (refl, v)
Visits-Move seen shadow_it v = inl (refl, v)
Visits-Move seen approve v = inl (refl, v)
Visits-Move seen back_to_registered v = inr (Visits-behind probed seen v)
Visits-Move seen back_to_probed v = inr (Visits-behind evaluated seen v)
Visits-Move seen back_to_evaluated v = inr (Visits-behind shadow seen v)
Visits-Move seen back_to_shadow v = tt
Visits-Move seen disable_registered v = inr v
Visits-Move seen disable_probed v = inr (Visits-behind probed seen v)
Visits-Move seen disable_evaluated v =
    inr (Visits-behind evaluated seen (Visits-behind probed seen v))
Visits-Move seen disable_shadow v =
    inr (Visits-behind shadow seen (Visits-behind evaluated seen (Visits-behind probed seen v)))
Visits-Move seen disable_approved v = tt
Visits-Move seen enable v = inr v

Visits-step :
    (s t : PromotionState) (seen : List PromotionState)
    → IsStep s t
    → Visits (stages_left t) seen
    → Visits (stages_left s) (t ∷ seen)
unfolding IsStep
Visits-step s t seen (inl same) v =
    Visits-later (stages_left s) t seen (subst (λ x. Visits (stages_left x) seen) same v)
Visits-step s t seen (inr move) v = Visits-Move seen move v

module _ {F : Float} (valid : Artifact → Bool) (config : PromotionConfig) (spec : ModelSpec F) where
  -- The state in which the deployment is served behind each request of a session.
  unfoldable pub states_served : List Request → Dict String Row → List PromotionState
  unfolding apply_transition
  states_served [] rows = []
  states_served (q ∷ qs) rows =
      let rows' = (apply_transition config (served valid config spec rows) q rows).0 in
      (served_as valid config rows' spec).lifecycle ∷ states_served qs rows'

  length-states_served :
      (qs : List Request) (rows : Dict String Row) → length (states_served qs rows) ≡ length qs
  unfolding states_served
  length-states_served [] rows = refl
  length-states_served (q ∷ qs) rows = omega (arith, length-states_served qs _)

  Visits-states_served :
      (qs : List Request) (rows : Dict String Row)
      → Every (λ q. q.force ≡ false) qs
      → (served_as valid config (session valid config spec qs rows) spec).lifecycle ≡ approved
      → Visits (stages_left (served_as valid config rows spec).lifecycle) (states_served qs rows)
  unfolding session states_served stages_left
  Visits-states_served [] rows h end = subst (λ x. Visits (stages_left x) []) (sym end) tt
  Visits-states_served (q ∷ qs) rows h end =
      let rows' = (apply_transition config (served valid config spec rows) q rows).0 in
      Visits-step _ _ (states_served qs rows') (apply_transition-Move valid config spec q rows h.0)
        (Visits-states_served qs rows' h.1 end)

  -- Where requests without an override lead a deployment that is served as registered to approval,
  -- the states in which it is served behind the single requests include probed, evaluated, shadow and
  -- approved, in this order; so there are at least four requests.
  pub session_approval :
      (qs : List Request) (rows : Dict String Row)
      → Every (λ q. q.force ≡ false) qs
      → (served_as valid config rows spec).lifecycle ≡ registered
      → (served_as valid config (session valid config spec qs rows) spec).lifecycle ≡ approved
      → Visits (probed ∷ evaluated ∷ shadow ∷ approved ∷ []) (states_served qs rows)
        × (4 ≤ length qs)
  unfolding stages_left
  session_approval qs rows h start end =
      let seen = states_served qs rows in
      let visits =
        subst (λ s. Visits (stages_left s) seen) start (Visits-states_served qs rows h end) in
      (
        visits,
        omega (
          arith,
          length-Visits (stages_left registered) seen visits,
          length-states_served qs rows,
        ),
      )
