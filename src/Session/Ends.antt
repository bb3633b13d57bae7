-- ===== src/Session/Ends.antt =====
-- useChat.ts: the acceptance of a run, and the run that its answer is filed under.
use v.Prelude.{ℕ, String, true, false, [], ◌∷◌, ◌++◌, some, ◌≡◌, refl, ◌∙◌, Bool-cases, inl, inr}
use v.Js.{Value, get, is_ok, is_str, is_nullish, response, parsed}
use v.Session.{ChatState, Stamp, Stream}
use v.Session.Send.{Pending, begin_send, finish_send, project_message}
use v.Session.Stage.{begin_send-planning}

-- Both kinds of accepted run that stream.
opened :
    (api e : String) (t : Stamp) (p : Pending) (status : ℕ) (data' : Value) (c : ChatState)
    → is_ok status ≡ true
    → is_nullish data' ≡ false
    → is_str (get data' "mode") "chat" ≡ false
    → let d = finish_send api e t p (response status (parsed data')) c in
      (d.run_id ≡ get data' "run_id")
      × ((st : Stream) × (d.stream ≡ some st) × (st.captured_run ≡ p.captured_run))
unfolding finish_send
opened api e t p status data' c okay there mode =
    elim (Bool-cases (is_str (get data' "mode") "project")) [
      | inl project ↦ rw okay (rw there (rw mode (rw project (refl, (_, refl, refl)))))
      | inr other ↦ rw okay (rw there (rw mode (rw other (refl, (_, refl, refl)))))
    ]

-- The listener of the stream that a send opens keeps the run of the hook before the send, although
-- the hook's run is then the one that the server answered with.
pub stream-captured_run :
    (api e : String) (t t' : Stamp) (text : String) (s c : ChatState) (p : Pending) (status : ℕ)
    (data' : Value)
    → begin_send t text s ≡ some (c, p)
    → is_ok status ≡ true
    → is_nullish data' ≡ false
    → is_str (get data' "mode") "chat" ≡ false
    → let d = finish_send api e t' p (response status (parsed data')) c in
      (d.run_id ≡ get data' "run_id")
      × ((st : Stream) × (d.stream ≡ some st) × (st.captured_run ≡ s.run_id))
stream-captured_run api e t t' text s c p status data' begun okay there mode =
    let (run, (st, open_eq, captured)) = opened api e t' p status data' c okay there mode in
    (run, (st, open_eq, captured ∙ (begin_send-planning t text s c p begun).8))

-- An accepted project run shows a provisional answer, filed under the new run.
pub finish_send-project :
    (api e : String) (t : Stamp) (p : Pending) (status : ℕ) (data' : Value) (c : ChatState)
    → is_ok status ≡ true
    → is_nullish data' ≡ false
    → is_str (get data' "mode") "chat" ≡ false
    → is_str (get data' "mode") "project" ≡ true
    → let d = finish_send api e t p (response status (parsed data')) c in
      (d.run_id ≡ get data' "run_id") × (d.messages ≡ c.messages ++ project_message t data' ∷ [])
unfolding finish_send
finish_send-project api e t p status data' c okay there chat project =
    rw okay (rw there (rw chat (rw project (refl, refl))))
