-- ===== src/Session/Bounds.antt =====
-- The timeline is bounded and holds no event twice, whatever the stream delivers.
use v.Prelude.{
  ℕ, zero, suc, ◌-◌, ◌≤◌, String, true, false, List, [], ◌∷◌, ◌++◌, ◌≡◌, arith, take_last, drop,
  length, some_of-append, length-append, length-drop, All, All-drop, Bool-cases, inl, inr, ◌∙◌, sym,
}
use v.Js.{Value, num, get, truthy, strict_eq}
use v.Session
use v.Session.Events.{push_event, is_replay}
use v.Session.System.{Action, run_actions, start}
use v.Session.Frames.{run_actions-events}

length-take_last : (n : ℕ) {A : Type 0} (xs : List A) → length (take_last n xs) ≤ n
length-take_last n xs = omega (arith, length-drop (length xs - n) xs)

length-push_event :
    (event : Value) (current : List Value)
    → length current ≤ 40
    → length (push_event event current) ≤ 40
unfolding push_event
length-push_event event current h = elim (Bool-cases (is_replay event current)) [
  | inl e ↦ rw e h
  | inr e ↦ rw e (
      omega (arith, length-append (take_last 39 current) (event ∷ []), length-take_last 39 current))
]

-- The timeline never holds more than 40 events, after any actions from a fresh hook.
pub events_bounded :
    (api type_error iso : String) (actions : List Action)
    → length (run_actions api type_error (start iso) actions).chat.events ≤ 40
unfolding Session.initial_chat
events_bounded api type_error iso actions =
    run_actions-events api type_error (λ l. length l ≤ 40) (omega arith) length-push_event
      (start iso) actions (omega arith)

abbrev pub sequence_of : Value → Value
sequence_of event = get event "sequence"

-- The event is not `===` in its sequence to `earlier`, if its sequence is truthy.
abbrev pub IsNewAfter : Value → Value → Type 0
IsNewAfter earlier event =
    truthy (sequence_of event) ≡ true → strict_eq (sequence_of earlier) (sequence_of event) ≡ false

-- No event repeats the truthy sequence of an earlier one.
abbrev pub HasDistinctSequences : List Value → Type 0
HasDistinctSequences [] = Unit
HasDistinctSequences (x ∷ xs) = All (IsNewAfter x) xs × HasDistinctSequences xs

drop-distinct :
    (n : ℕ) (xs : List Value) → HasDistinctSequences xs → HasDistinctSequences (drop n xs)
drop-distinct zero xs h = h
drop-distinct (suc n) [] h = h
drop-distinct (suc n) (x ∷ xs) h = drop-distinct n xs h.1

All-concat :
    (P : Value → Type 0) (xs : List Value) (y : Value) → All P xs → P y → All P (xs ++ y ∷ [])
All-concat P [] y h p = (p, tt)
All-concat P (x ∷ xs) y h p = (h.0, All-concat P xs y h.1 p)

append-distinct :
    (event : Value) (xs : List Value)
    → HasDistinctSequences xs
    → All (λ x. IsNewAfter x event) xs
    → HasDistinctSequences (xs ++ event ∷ [])
append-distinct event [] h new = (tt, tt)
append-distinct event (x ∷ xs) h new =
    (All-concat (IsNewAfter x) xs event h.0 new.0, append-distinct event xs h.1 new.1)

IsNewAfter-All :
    (event : Value) (xs : List Value)
    → is_replay event xs ≡ false
    → All (λ x. IsNewAfter x event) xs
IsNewAfter-All event [] h = tt
IsNewAfter-All event (x ∷ xs) h = (
  λ (t : truthy (sequence_of event) ≡ true). ground arith,
  IsNewAfter-All event xs (ground arith),
)

push_event-distinct :
    (event : Value) (current : List Value)
    → HasDistinctSequences current
    → HasDistinctSequences (push_event event current)
unfolding push_event
push_event-distinct event current h = elim (Bool-cases (is_replay event current)) [
  | inl e ↦ rw e h
  | inr e ↦ rw e (
      append-distinct event (take_last 39 current) (drop-distinct (length current - 39) current h) (
        All-drop (λ x. IsNewAfter x event) (length current - 39) current
          (IsNewAfter-All event current e)))
]

-- No two events of the timeline share a truthy sequence, after any actions from a fresh hook.
pub events_distinct :
    (api type_error iso : String) (actions : List Action)
    → HasDistinctSequences (run_actions api type_error (start iso) actions).chat.events
unfolding Session.initial_chat
events_distinct api type_error iso actions =
    run_actions-events api type_error HasDistinctSequences tt push_event-distinct (start iso)
      actions tt

replay_of_pushed :
    (n : ℕ) (event again : Value) (xs : List Value)
    → sequence_of event ≡ num (suc n)
    → sequence_of again ≡ num (suc n)
    → is_replay again (xs ++ event ∷ []) ≡ true
unfolding truthy strict_eq
replay_of_pushed n event again xs h k =
    rw
      (
        some_of-append (λ item. strict_eq (sequence_of item) (sequence_of again)) xs (event ∷ []),
        h,
        k,
      )
      (ground arith)

is_replay-congr :
    (event again : Value) (xs : List Value)
    → sequence_of event ≡ sequence_of again
    → is_replay again xs ≡ is_replay event xs
is_replay-congr event again xs h = rw h

push_event_replay :
    (event : Value) (xs : List Value) → is_replay event xs ≡ true → push_event event xs ≡ xs
unfolding push_event
push_event_replay event xs h = rw h

-- A numbered event that is delivered again leaves the timeline as its first delivery left it.
push_event_again :
    (n : ℕ) (event again : Value) (current : List Value)
    → sequence_of event ≡ num (suc n)
    → sequence_of again ≡ num (suc n)
    → push_event again (push_event event current) ≡ push_event event current
push_event_again n event again current h k = push_event_replay again (push_event event current) (
    unfold push_event in
    elim (Bool-cases (is_replay event current)) [
      | inl e ↦ rw e (is_replay-congr event again current (h ∙ sym k) ∙ e)
      | inr e ↦ rw e (replay_of_pushed n event again (take_last 39 current) h k)
    ])
