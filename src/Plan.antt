-- ===== src/Plan.antt =====
-- frontend/client/src/hooks/useChat.ts, `planSteps` and `normalizePlan`: a plan from the server in
-- either of its shapes becomes the list of steps that the chat and the canvas show.
pub mod Laws
mod Tests
use v.Prelude.{ℕ, suc, String, List, [], ◌∷◌, Option, none, some, if◌then◌else◌, ◌<>◌, show}
use v.Js.{Value, str, obj, undefined, get, as_array, or_else, is_nullish}
use v.Types.Run.{PlanStep}

unfoldable pub plan_steps : Value → List Value
plan_steps (Value.arr xs) = elim (as_array (Value.arr xs)) [ none ↦ [] | some l ↦ l ]
plan_steps (obj fs) = elim (as_array (get (obj fs) "steps")) [ none ↦ [] | some l ↦ l ]
plan_steps _ = []

-- `step-${index + 1}`
abbrev pub step_id : ℕ → String
step_id index = "step-" <> show (suc index)

-- One round of the `map`; `none` where reading `step.id` throws a `TypeError`.
unfoldable pub normalize_step : ℕ → Value → Option PlanStep
normalize_step index (str s) = some (record {
  id = str (step_id index);
  title = str s;
  description = undefined;
  depends_on = undefined;
  status = str "pending";
  tool = undefined;
})
normalize_step index v =
    if is_nullish v
    then none
    else some (record {
      id = or_else (get v "id") (str (step_id index));
      title = get v "title";
      description = get v "description";
      depends_on = get v "depends_on";
      status = or_else (get v "status") (str "pending");
      tool = get v "tool";
    })

cons_step : Option PlanStep → Option (List PlanStep) → Option (List PlanStep)
cons_step none rest = none
cons_step (some p) none = none
cons_step (some p) (some ps) = some (p ∷ ps)

unfoldable pub normalize_steps : ℕ → List Value → Option (List PlanStep)
unfolding cons_step
normalize_steps index [] = some []
normalize_steps index (v ∷ vs) = cons_step (normalize_step index v) (normalize_steps (suc index) vs)

unfoldable pub normalize_plan : Value → Option (List PlanStep)
unfolding normalize_steps normalize_step plan_steps
normalize_plan plan = normalize_steps 0 (plan_steps plan)
