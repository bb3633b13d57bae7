-- ===== src/Hooks/Input.antt =====
-- frontend/client/src/components/ui/input.tsx: the handlers of the text input around the guard.
use v.Prelude.{String, Bool, true, false, not, ◌&&◌, ◌||◌, ◌===◌, ◌≡◌, arith}
use v.Hooks.Composition.{
  Composition, KeyOutcome, stopped, forwarded, on_key_down, on_composition_start,
  on_composition_end,
}

-- What the input asks of its dialog's composition context.
pub record DialogComposition : Type 0 where
  pub composing : Bool
  pub just_ended : Bool

pub record InputState : Type 0 where
  pub guard : Composition
  pub dialog : DialogComposition

unfoldable pub input_composition_start : InputState → InputState
unfolding on_composition_start
input_composition_start s = record {
  guard = on_composition_start s.guard;
  dialog = record { composing = true; just_ended = s.dialog.just_ended };
}

-- The dialog's `setComposing(false)` runs 100 ms later: `dialog_timeout`.
unfoldable pub input_composition_end : InputState → InputState
unfolding on_composition_end
input_composition_end s = record {
  guard = on_composition_end s.guard;
  dialog = record { composing = s.dialog.composing; just_ended = true };
}

unfoldable pub dialog_timeout : InputState → InputState
dialog_timeout s = record {
  guard = s.guard;
  dialog = record { composing = false; just_ended = s.dialog.just_ended };
}

-- The `onKeyDown` given to the guard: whether the user's handler is called.
unfoldable pub reaches_handler : String → Bool → InputState → Bool
reaches_handler key native_composing s =
    not (key === "Enter" && (native_composing || s.dialog.just_ended))

abbrev when_forwarded : KeyOutcome → Bool → Bool
when_forwarded stopped b = false
when_forwarded forwarded b = b

-- Whether a key reaches the user's handler.
unfoldable pub input_key_down : String → Bool → Bool → InputState → Bool
unfolding on_key_down reaches_handler
input_key_down key shift native_composing s =
    when_forwarded (on_key_down key shift s.guard) (reaches_handler key native_composing s)

-- A plain Enter reaches the user's handler exactly when nothing composes: not the guard, not the
-- event, and not the dialog just before.
input_key_down-Enter :
    (native_composing : Bool) (s : InputState)
    → input_key_down "Enter" false native_composing s
      ≡ not (s.guard.composing || native_composing || s.dialog.just_ended)
unfolding input_key_down on_key_down reaches_handler
input_key_down-Enter native_composing s = ground arith
