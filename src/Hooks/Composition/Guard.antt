-- ===== src/Hooks/Composition/Guard.antt =====
-- The guard of useComposition.ts over whole compositions.
use v.Prelude.{ℕ, suc, zero, true, List, [], ◌∷◌, Option, none, some, ◌≡◌, refl, arith}
use v.Hooks.Composition.{
  Job, outer, inner, Waiting, Composition, initial_composition, clear, on_composition_start,
  on_composition_end, run_job, run_first, run_timer, compose, compose_all, turns, session, sessions,
}

-- At most one timer waits, and the hook holds its id.
abbrev IsHeld : Job → ℕ → Option ℕ → Option ℕ → Type 0
IsHeld outer id t u = t ≡ some id
IsHeld inner id t u = u ≡ some id

abbrev IsTrackedBy : List Waiting → Option ℕ → Option ℕ → Type 0
IsTrackedBy [] t u = Unit
IsTrackedBy (w ∷ []) t u = IsHeld w.job w.id t u
IsTrackedBy (_ ∷ _ ∷ _) t u = ⊥

abbrev IsTracked : Composition → Type 0
IsTracked c = IsTrackedBy c.waiting c.timer c.timer2

-- A composition runs and no timer can end it.
abbrev IsActive : Composition → Type 0
IsActive c = (c.composing ≡ true) × (c.waiting ≡ [])

clear_nothing : (t : Option ℕ) → clear t [] ≡ []
unfolding clear
clear_nothing none = refl
clear_nothing (some id) = refl

clear_own : (w : Waiting) → clear (some w.id) (w ∷ []) ≡ []
unfolding clear
clear_own w = ground arith

clear_held :
    (j : Job) (id : ℕ) (t u : Option ℕ)
    → IsHeld j id t u
    → clear u (clear t (record { id = id; job = j } ∷ [])) ≡ []
unfolding clear
clear_held outer id t u h = rw (h, clear_own (record { id = id; job = outer })) (clear_nothing u)
clear_held inner id none u h = rw h (clear_own (record { id = id; job = inner }))
clear_held inner id (some t) u h = rw h (ground arith)

clear_tracked :
    (ws : List Waiting) (t u : Option ℕ) → IsTrackedBy ws t u → clear u (clear t ws) ≡ []
clear_tracked [] t u h = rw (clear_nothing t) (clear_nothing u)
clear_tracked (w ∷ []) t u h = clear_held w.job w.id t u h
clear_tracked (_ ∷ _ ∷ _) t u h = absurd h

start-IsActive : (c : Composition) → IsTracked c → IsActive (on_composition_start c)
unfolding on_composition_start
start-IsActive c h = (refl, clear_tracked c.waiting c.timer c.timer2 h)

turns-IsActive : (n : ℕ) (c : Composition) → IsActive c → IsActive (compose_all (turns n) c)
unfolding compose_all compose run_timer
turns-IsActive zero c h = h
turns-IsActive (suc n) c h = turns-IsActive n (run_timer c) (rw h.1 (h.0, refl))

end-IsTracked : (c : Composition) → c.waiting ≡ [] → IsTracked (on_composition_end c)
unfolding on_composition_end
end-IsTracked c h = rw h refl

run_job-IsTracked :
    (j : Job) (id : ℕ) (c : Composition)
    → IsTracked (run_job (record { id = id; job = j }) (record c { waiting = [] }))
run_job-IsTracked outer id c = refl
run_job-IsTracked inner id c = tt

run_first-IsTracked :
    (ws : List Waiting) (c : Composition)
    → IsTrackedBy ws c.timer c.timer2
    → ws ≡ c.waiting
    → IsTracked (run_first ws c)
run_first-IsTracked [] c h e = rw⁻¹ e h
run_first-IsTracked (w ∷ []) c h e = run_job-IsTracked w.job w.id c
run_first-IsTracked (_ ∷ _ ∷ _) c h e = absurd h

turns-IsTracked : (n : ℕ) (c : Composition) → IsTracked c → IsTracked (compose_all (turns n) c)
unfolding compose_all compose run_timer
turns-IsTracked zero c h = h
turns-IsTracked (suc n) c h =
    turns-IsTracked n (run_timer c) (run_first-IsTracked c.waiting c h refl)

session-IsTracked : (s : ℕ × ℕ) (c : Composition) → IsTracked c → IsTracked (session s c)
unfolding session
session-IsTracked (during, after) c h =
    let busy = compose_all (turns during) (on_composition_start c) in
    turns-IsTracked after (on_composition_end busy)
      (end-IsTracked busy (turns-IsActive during (on_composition_start c) (start-IsActive c h)).1)

sessions-IsTracked : (ss : List (ℕ × ℕ)) (c : Composition) → IsTracked c → IsTracked (sessions ss c)
unfolding sessions
sessions-IsTracked [] c h = h
sessions-IsTracked (s ∷ ss) c h = sessions-IsTracked ss (session s c) (session-IsTracked s c h)

-- After any number of whole compositions, each with any number of timer turns during it and after it,
-- a new composition holds the guard through all its timer turns: no timer left by an earlier one ends it.
pub sessions-guarded :
    (ss : List (ℕ × ℕ)) (n : ℕ)
    → (compose_all (turns n) (on_composition_start (sessions ss initial_composition))).composing
      ≡ true
unfolding initial_composition
sessions-guarded ss n =
    (turns-IsActive n _ (start-IsActive _ (sessions-IsTracked ss initial_composition tt))).0
