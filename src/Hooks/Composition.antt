-- ===== src/Hooks/Composition.antt =====
-- frontend/client/src/hooks/useComposition.ts: Enter and Escape are held back while an input method
-- composes, and for two timer turns after it ended.
pub mod Guard
use v.Prelude.{
  ℕ, suc, zero, String, Bool, true, false, not, ◌&&◌, ◌||◌, List, [], ◌∷◌, ◌++◌, Option, none, some,
  if◌then◌else◌, ◌===◌, ◌==◌, ◌≡◌, refl, arith, keep, Bool-cases,
}

-- A timer that is waiting to run: the outer one sets the inner one, which ends the composition.
pub data Job : Type 0 where
  outer inner : Job

pub record Waiting : Type 0 where
  pub id : ℕ
  pub job : Job

-- `c.current`, `timer.current`, `timer2.current`, and the timers of the engine that wait to run.
pub record Composition : Type 0 where
  pub composing : Bool
  pub timer : Option ℕ
  pub timer2 : Option ℕ
  pub waiting : List Waiting
  pub next_id : ℕ

unfoldable pub initial_composition : Composition
initial_composition = record {
  composing = false;
  timer = none;
  timer2 = none;
  waiting = [];
  next_id = 1;
}

-- `if (timer) clearTimeout(timer)`
unfoldable pub clear : Option ℕ → List Waiting → List Waiting
clear none ws = ws
clear (some id) ws = keep (λ w. not (w.id == id)) ws

-- `onCompositionStart`
unfoldable pub on_composition_start : Composition → Composition
unfolding clear
on_composition_start c = record c {
  waiting = clear c.timer2 (clear c.timer c.waiting);
  timer = none;
  timer2 = none;
  composing = true;
}

-- `onCompositionEnd`
unfoldable pub on_composition_end : Composition → Composition
on_composition_end c = record c {
  timer = some c.next_id;
  waiting = c.waiting ++ record { id = c.next_id; job = outer } ∷ [];
  next_id = suc c.next_id;
}

abbrev run_job : Waiting → Composition → Composition
run_job w c = by w.job c
  where
    by : Job → Composition → Composition
    by outer c = record c {
      timer2 = some c.next_id;
      waiting = c.waiting ++ record { id = c.next_id; job = inner } ∷ [];
      next_id = suc c.next_id;
    }
    by inner c = record c { composing = false }

abbrev run_first : List Waiting → Composition → Composition
run_first [] c = c
run_first (w ∷ ws) c = run_job w (record c { waiting = ws })

-- The engine runs the timer that has waited longest.
unfoldable pub run_timer : Composition → Composition
run_timer c = run_first c.waiting c

-- What `onKeyDown` does with a key: stop it, or give it to the caller's handler.
pub data KeyOutcome : Type 0 where
  stopped forwarded : KeyOutcome

unfoldable pub on_key_down : String → Bool → Composition → KeyOutcome
on_key_down key shift c =
    if c.composing && (key === "Escape" || (key === "Enter" && not shift))
    then stopped
    else forwarded

-- `isComposing`
unfoldable pub is_composing : Composition → Bool
is_composing c = c.composing

pub data CompositionEvent : Type 0 where
  starts ends turn : CompositionEvent

unfoldable pub compose : CompositionEvent → Composition → Composition
unfolding on_composition_start on_composition_end run_timer
compose starts c = on_composition_start c
compose ends c = on_composition_end c
compose turn c = run_timer c

unfoldable pub compose_all : List CompositionEvent → Composition → Composition
unfolding compose
compose_all [] c = c
compose_all (e ∷ es) c = compose_all es (compose e c)

-- Turns of the timers only.
abbrev pub turns : ℕ → List CompositionEvent
turns zero = []
turns (suc n) = turn ∷ turns n

-- One whole composition, with timer turns during it and after it.
unfoldable pub session : ℕ × ℕ → Composition → Composition
unfolding compose_all
session (during, after) c =
    compose_all (turns after)
      (on_composition_end (compose_all (turns during) (on_composition_start c)))

unfoldable pub sessions : List (ℕ × ℕ) → Composition → Composition
unfolding session
sessions [] c = c
sessions (s ∷ ss) c = sessions ss (session s c)
