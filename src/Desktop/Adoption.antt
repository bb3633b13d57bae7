-- ===== src/Desktop/Adoption.antt =====
-- What `desktop:status` of desktop/main.mjs records about a workspace that was chosen but not paired.
use v.Prelude.{ap, ◌∙◌, Bool, true, false, none, ◌≡◌, refl, Bool-cases, inl, inr, ◌∷◌}
use v.Js.{Value, bool, get, lookup_field, Fields, truthy, strict_eq, spread_fields}
use v.Desktop.{Desktop, Window, returned, read_state, write_state, patch_state, state_path}
use v.Desktop.Outside.{Host, History, sealed, Effect, looked, saved, made_directory}
use v.Desktop.Paths.{runtime_paths}
use v.Desktop.Account.{Account, account, account_of, contents, account_of-paired}
use v.Desktop.Calls.{status, handle}
use v.Desktop.Status.{
  on_status, workspace_of, paired_workspace_of, is_paired_here, migrated_fields, status_value,
}

not_here :
    (state : Fields)
    → strict_eq (paired_workspace_of state) (workspace_of state) ≡ false
    → is_paired_here state ≡ false
not_here state h = elim (Bool-cases (truthy (paired_workspace_of state))) [
  | inl k ↦ rw (k, h) refl
  | inr k ↦ rw k refl
]

-- The program with these settings.
abbrev pub settled_with : Fields → Bool → Window → History → Desktop
settled_with state ready window history = record {
  secrets = sealed state;
  session_ready = ready;
  window = window;
  history = history;
}

write_state-ok :
    (host : Host)
    → ((h : History) → host.can_encrypt h ≡ true)
    → ((h : History) (e : Effect) → host.fails h e ≡ none)
    → (fs : Fields) (d : Desktop)
    → write_state host fs d ≡ (
      settled_with fs d.session_ready d.window
          (saved fs ∷ made_directory (host.dirname (state_path host)) ∷ d.history),
      returned tt,
    )
unfolding write_state
write_state-ok host enc ok fs d = rw (enc d.history, ok d.history _, ok _ (saved fs)) refl

status-migrates :
    (host : Host) (state : Fields) (ready : Bool) (window : Window) (history : History)
    → ((h : History) → host.can_encrypt h ≡ true)
    → ((h : History) (e : Effect) → host.fails h e ≡ none)
    → truthy (workspace_of state) ≡ true
    → strict_eq (paired_workspace_of state) (workspace_of state) ≡ false
    → host.exists history (runtime_paths host).config ≡ true
    → ((handle host status (settled_with state ready window history)).0.secrets
        ≡ sealed (spread_fields state (migrated_fields state)))
      × ((handle host status (settled_with state ready window history)).1
          ≡ returned (status_value host true state))
unfolding handle on_status read_state patch_state write_state
status-migrates host state ready window history enc ok there other config =
    let h : History = looked (runtime_paths host).config ∷ history in
    rw
      (
        enc history,
        not_here state other,
        there,
        config,
        other,
        enc h,
        write_state-ok host enc ok _ _,
      )
      (refl, refl)

-- When a workspace other than the paired one was chosen, or none was paired, and a runtime
-- configuration is on disk, from whichever workspace, the status call records the chosen workspace as
-- the paired one of the account and reports it to the page as paired, on a host whose encryption and
-- writes work.
pub status-adopts :
    (host : Host) (state : Fields) (ready : Bool) (window : Window) (history : History)
    → ((h : History) → host.can_encrypt h ≡ true)
    → ((h : History) (e : Effect) → host.fails h e ≡ none)
    → truthy (lookup_field "workspacePath" state) ≡ true
    → strict_eq (lookup_field "pairedWorkspacePath" state) (lookup_field "workspacePath" state)
      ≡ false
    → host.exists history (runtime_paths host).config ≡ true
    → let after = handle host status (settled_with state ready window history) in
      ((account after.0).paired ≡ lookup_field "workspacePath" state)
      × ((v : Value) × (after.1 ≡ returned v)
          × (get v "paired" ≡ bool true)
          × (get v "workspacePath" ≡ lookup_field "workspacePath" state))
unfolding lookup_field
status-adopts host state ready window history enc ok there other config =
    let (written, told) =
      status-migrates host state ready window history enc ok there other config in
    (
      ap (λ s. (account_of (contents s)).paired) written
          ∙ ap (λ (a : Account). a.paired) (account_of-paired state _),
      (status_value host true state, told, refl, rw there refl),
    )
