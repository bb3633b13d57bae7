-- ===== src/Plan/Laws.antt =====
-- What `normalizePlan` guarantees of the steps that it returns.
use text.Mathlib.TextLemmas.{append-eq-nil_iff}
use mathlib.Core.Path.{subst}
use mathlib.Core.Option.{some-injective}
use v.Prelude.{
  ℕ, suc, String, List, [], ◌∷◌, Option, none, some, ◌<>◌, show, ◌≡◌, refl, true, false, All,
  length, Bool-cases, ◌===◌, eq_iff, inl, inr, sym, ap, ◌⊎◌, ◌∙◌,
}
use v.Js.{
  as_array, Value, Items, Fields, str, obj, undefined, truthy, get, or_else, is_nullish,
  lookup_field, items,
}
use v.Types.Run.{PlanStep}
use v.Plan.{plan_steps, step_id, cons_step, normalize_step, normalize_steps, normalize_plan}

-- A text with a prefix that is not empty is truthy.
prefix_truthy : (a s : String) → (a === "") ≡ false → truthy (str (a <> s)) ≡ true
unfolding truthy
prefix_truthy a s h = elim (Bool-cases (a <> s === "")) [
  | inl e ↦
      let eq = (eq_iff (a <> s) "").0 e in
      let nil = (append-eq-nil_iff.0 eq).0 in let t = (eq_iff a "").1 nil in cc
  | inr e ↦ rw e
]

step_id-truthy : (i : ℕ) → truthy (str (step_id i)) ≡ true
step_id-truthy i = prefix_truthy "step-" (show (suc i)) refl

or_else-truthy : (a b : Value) → truthy b ≡ true → truthy (or_else a b) ≡ true
or_else-truthy a b h = elim (Bool-cases (truthy a)) [ inl e ↦ rw (e, e) | inr e ↦ rw e h ]

-- A step that can be keyed, matched against an event and shown with a status.
pub record IsReady (p : PlanStep) : Type 0 where
  pub has_id : truthy p.id ≡ true
  pub has_status : truthy p.status ≡ true

IsReady-of_some :
    {p q : PlanStep} → ◌≡◌ {A = Option PlanStep} (some q) (some p) → IsReady q → IsReady p
IsReady-of_some e h = subst IsReady (some-injective _ _ e) h

-- A step object keeps its id and status, and otherwise gets defaults.
object-IsReady :
    (i : ℕ) (v : Value) (p : PlanStep)
    → ◌≡◌ {A = Option PlanStep}
        (some (record {
          id = or_else (get v "id") (str (step_id i));
          title = get v "title";
          description = get v "description";
          depends_on = get v "depends_on";
          status = or_else (get v "status") (str "pending");
          tool = get v "tool";
        }))
        (some p)
    → IsReady p
unfolding truthy
object-IsReady i v p e = IsReady-of_some e (record {
  has_id = or_else-truthy (get v "id") _ (step_id-truthy i);
  has_status = or_else-truthy (get v "status") _ refl;
})

normalize_step-IsReady :
    (i : ℕ) (v : Value) (p : PlanStep) → normalize_step i v ≡ some p → IsReady p
unfolding normalize_step truthy
normalize_step-IsReady i (str s) p h =
    IsReady-of_some h (record { has_id = step_id-truthy i; has_status = refl })
normalize_step-IsReady i undefined p h = cc
normalize_step-IsReady i Value.null p h = cc
normalize_step-IsReady i v p h = object-IsReady i v p h

cons_step-eq_some :
    (a : Option PlanStep) (b : Option (List PlanStep)) (ps : List PlanStep)
    → cons_step a b ≡ some ps
    → (p : PlanStep) × (qs : List PlanStep) × (a ≡ some p) × (b ≡ some qs) × (ps ≡ p ∷ qs)
unfolding cons_step
cons_step-eq_some none b ps h = cc
cons_step-eq_some (some p) none ps h = cc
cons_step-eq_some (some p) (some qs) ps h = (p, qs, refl, refl, sym (some-injective _ _ h))

normalize_steps-All :
    (i : ℕ) (vs : List Value) (ps : List PlanStep)
    → normalize_steps i vs ≡ some ps
    → (length ps ≡ length vs) × All IsReady ps
unfolding normalize_steps
normalize_steps-All i [] ps h = rw (← some-injective _ _ h) (refl, tt)
normalize_steps-All i (v ∷ vs) ps h =
    let (p, qs, hp, hqs, e) =
      cons_step-eq_some (normalize_step i v) (normalize_steps (suc i) vs) ps h in
    let (len, ready) = normalize_steps-All (suc i) vs qs hqs in
    rw e (ap suc len, (normalize_step-IsReady i v p hp, ready))

plan_steps-IsReady :
    (plan : Value) (ps : List PlanStep)
    → normalize_plan plan ≡ some ps
    → (length ps ≡ length (plan_steps plan)) × All IsReady ps
plan_steps-IsReady plan ps h =
    normalize_steps-All 0 (plan_steps plan) ps (unfold normalize_plan in h)

-- The two shapes of a plan: an array of its entries, or an envelope with that array as its steps.
abbrev pub IsPlanOf : Items → Value → Type 0
IsPlanOf entries plan =
    (plan ≡ Value.arr entries)
    ⊎ ((fs : Fields) × (plan ≡ obj fs) × (lookup_field "steps" fs ≡ Value.arr entries))

plan_steps-eq :
    (entries : Items) (plan : Value) → IsPlanOf entries plan → plan_steps plan ≡ items entries
unfolding plan_steps
plan_steps-eq entries plan (inl e) = rw e refl
plan_steps-eq entries plan (inr (fs, e, steps)) =
    rw e (ap (λ (v : Value). elim (as_array v) [ none ↦ [] | some l ↦ l ]) steps)

-- In either shape, a plan that normalises without a throw gives one step for each entry, and every
-- step has a truthy id and a truthy status.
pub normalize_plan-IsReady :
    (entries : Items) (plan : Value) (ps : List PlanStep)
    → IsPlanOf entries plan
    → normalize_plan plan ≡ some ps
    → (length ps ≡ length (items entries)) × All IsReady ps
normalize_plan-IsReady entries plan ps shape h =
    let (len, ready) = plan_steps-IsReady plan ps h in
    (len ∙ ap length (plan_steps-eq entries plan shape), ready)

IsObject : Value → Type 0
IsObject v = is_nullish v ≡ false

normalize_step_total :
    (i : ℕ) (v : Value) → IsObject v → (p : PlanStep) × (normalize_step i v ≡ some p)
unfolding normalize_step IsObject
normalize_step_total i (str s) h = (_, refl)
normalize_step_total i undefined h = cc
normalize_step_total i Value.null h = cc
normalize_step_total i v h = (_, refl)

normalize_steps_total :
    (i : ℕ) (vs : List Value)
    → All IsObject vs
    → (ps : List PlanStep) × (normalize_steps i vs ≡ some ps)
unfolding normalize_steps
normalize_steps_total i [] h = ([], refl)
normalize_steps_total i (v ∷ vs) h =
    let (p, hp) = normalize_step_total i v h.0 in
    let (ps, hps) = normalize_steps_total (suc i) vs h.1 in (p ∷ ps, rw (hp, hps))

-- Normalising throws only for an entry that is `null` or `undefined`: without one it gives a plan.
normalize_plan_total :
    (plan : Value)
    → All (λ v. is_nullish v ≡ false) (plan_steps plan)
    → (ps : List PlanStep) × (normalize_plan plan ≡ some ps)
unfolding normalize_plan IsObject
normalize_plan_total plan h = normalize_steps_total 0 (plan_steps plan) h

-- The step as an object of the plan envelope.
abbrev step_value : PlanStep → Value
step_value p = obj (
    Fields.field "id" p.id (
      Fields.field "title" p.title (
        Fields.field "description" p.description (
          Fields.field "depends_on" p.depends_on
            (Fields.field "status" p.status (Fields.field "tool" p.tool Fields.end))))))

abbrev pub step_items : List PlanStep → Items
step_items [] = Items.nil
step_items (p ∷ ps) = Items.cons (step_value p) (step_items ps)

step_again : (i : ℕ) (p : PlanStep) → IsReady p → normalize_step i (step_value p) ≡ some p
unfolding normalize_step lookup_field
step_again i p r = rw (r.has_id, r.has_status)

steps_again :
    (i : ℕ) (ps : List PlanStep)
    → All IsReady ps
    → normalize_steps i (items (step_items ps)) ≡ some ps
unfolding normalize_steps
steps_again i [] h = refl
steps_again i (p ∷ ps) h = rw (step_again i p h.0, steps_again (suc i) ps h.1)

-- Normalising is idempotent: the steps of a normalised plan, sent again as an array or in an
-- envelope, normalise to themselves.
pub normalize_plan_idem :
    (plan : Value) (ps : List PlanStep)
    → normalize_plan plan ≡ some ps
    → (normalize_plan (Value.arr (step_items ps)) ≡ some ps)
      × (normalize_plan (obj (Fields.field "steps" (Value.arr (step_items ps)) Fields.end))
          ≡ some ps)
unfolding normalize_plan lookup_field
normalize_plan_idem plan ps h =
    let again = steps_again 0 ps (plan_steps-IsReady plan ps h).1 in (again, again)
