-- ===== src/Session/Approvals.antt =====
-- useChat.ts: `refreshApprovals`, polled while a run is loading, and `decideApproval`.
use v.Prelude.{String, Bool, true, false, [], none, some, if◌then◌else◌, ◌<>◌, show, strip_slash}
use v.Js.{
  Value, Thrown, Fetched, rejected, response, parsed, unreadable, is_ok, message_of, truthy, get,
  as_array, is_nullish, to_string, Body,
}
use v.Types.Run.{ApprovalGrantScope}
use v.Session.{ChatState}

abbrev pub run_url : String → Value → String
run_url api run = strip_slash api <> "/v1/runs/" <> to_string run

abbrev pub approvals_url : String → Value → String
approvals_url api run = run_url api run <> "/approvals?status=pending"

abbrev pub decision_url : String → Value → String → String
decision_url api run approval = run_url api run <> "/approvals/" <> approval <> "/decision"

-- `throw new Error(...)`, caught below it.
abbrev approvals_failed : Thrown → ChatState → ChatState
approvals_failed e s = record s { error = some (message_of e "Could not load pending approvals.") }

-- The body after `response.ok`; `type_error` is the engine's text for a read of `null.approvals`.
approvals_body : String → Body Value → ChatState → ChatState
approvals_body type_error (unreadable e) s = approvals_failed e s
approvals_body type_error (parsed data') s =
    if is_nullish data'
    then approvals_failed (Thrown.error type_error) s
    else record s { approvals = elim (as_array (get data' "approvals")) [ none ↦ [] | some l ↦ l ] }

-- `refreshApprovals(target)`, with the outcome of its `fetch`.
unfoldable pub refresh_approvals : String → Value → Fetched Value → ChatState → ChatState
unfolding approvals_body
refresh_approvals type_error target (rejected e) s =
    if truthy target then approvals_failed e s else s
refresh_approvals type_error target (response status body) s =
    if truthy target
    then if is_ok status
      then approvals_body type_error body s
      else approvals_failed (Thrown.error ("Approval request failed with " <> show status)) s
    else s

-- The body of the decision's request.
pub record Decision : Type 0 where
  pub approval_id : String
  pub approved : Bool
  pub grant_scope : ApprovalGrantScope

abbrev decision_failed : Thrown → ChatState → ChatState
decision_failed e s = record s {
  error = some (message_of e "Could not submit the approval decision.");
}

-- `decideApproval` in a closure over the run `captured`, up to its `fetch`; the second component tells
-- whether there is one.
unfoldable pub begin_decision : Value → ChatState → ChatState × Bool
begin_decision captured s =
    if truthy captured then (record s { error = none }, true) else (s, false)

-- From the outcome of that `fetch` on; the second component tells whether `refreshApprovals` follows.
unfoldable pub finish_decision : Fetched Value → ChatState → ChatState × Bool
finish_decision (rejected e) s = (decision_failed e s, false)
finish_decision (response status _) s =
    if is_ok status
    then (s, true)
    else (decision_failed (Thrown.error ("Approval decision failed with " <> show status)) s, false)
