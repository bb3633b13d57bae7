-- ===== src/Renderer/Handover.antt =====
-- A workspace chosen in the main process and handed back by desktop/renderer/app.mjs for pairing.
use v.Prelude.{
  String, true, false, some, ◌≡◌, refl, sym, ap, ◌∙◌, ◌===◌, Bool-cases, inl, inr, arith, eq_iff,
  [], ◌∷◌,
}
use v.Js.{Fields, spread_fields, Value, str, obj, null, truthy, strict_eq, lookup_field}
use v.Desktop.{Desktop, Outcome, returned, threw, continue, log, give, patch_state, object}
use v.Desktop.Outside.{Host, History, sealed, picked}
use v.Desktop.Setup.{install_and_pair, install_guarded, install_and_record}
use v.Desktop.Calls.{
  choose_workspace, install, handle, on_choose_workspace, take_workspace, chosen, local_fields,
}
use v.Desktop.Account.{Account, account, account_of, contents, account_of-workspace}
use v.Desktop.Errors.{has_thrown}
use v.Desktop.Claims.{Ends, bind-Ends, last-Ends, patch-Ends, Patched, read_state-sealed}
use v.Desktop.Keeps.Leads.{Yields, bind-Yields, Good}
use v.Renderer.{Screen, continue_to_setup, show_panel}
use v.Renderer.Repositories.{workspace_answered}
use v.Renderer.Setup as Page

module _ (host : Host) (path : String) where
  -- The settings can be decrypted and have the path as the workspace.
  abbrev Holds : Desktop → Type 0
  Holds d = (fs : Fields) × (d.secrets ≡ sealed fs) × (lookup_field "workspacePath" fs ≡ str path)

  Patched-Holds : (d : Desktop) → Patched (local_fields path) d → Holds d
  unfolding account_of
  Patched-Holds d p = (
    spread_fields p.0 (local_fields path),
    p.1,
    ap (λ (a : Account). a.workspace) (account_of-workspace p.0 (str path) _),
  )

  written-Ends : Ends Holds (patch_state host (local_fields path))
  written-Ends = record {
    ended = λ d h.
        Patched-Holds (patch_state host (local_fields path) d).0
          ((patch-Ends host (local_fields path)).ended d h);
  }

  taken-Ends : (path === "") ≡ false → Ends Holds (take_workspace host path)
  taken-Ends h = rw h (search (bind-Ends, last-Ends, written-Ends))

  given-Yields : Yields (λ v. v ≡ str path) (give (str path))
  given-Yields = record { yielded = λ d. refl }

  taken-Yields : (path === "") ≡ false → Yields (λ v. v ≡ str path) (take_workspace host path)
  taken-Yields h = rw h (search (bind-Yields, given-Yields))

  returned-eq :
      (o : Outcome Value) (v folder : Value)
      → Good (λ w. w ≡ v) o
      → o ≡ returned folder
      → folder ≡ v
  returned-eq (returned a) v folder g h = cc
  returned-eq (threw e) v folder g h = absurd cc

  none_taken :
      (d : Desktop) (folder : Value)
      → (path === "") ≡ true
      → (take_workspace host path d).1 ≡ returned folder
      → folder ≡ null
  none_taken d folder k h =
      let empty : (take_workspace host path d).1 ≡ returned null = rw k refl in
      returned-eq (returned null) null folder refl (sym empty ∙ h)

  taken :
      (d : Desktop) (folder : Value)
      → (take_workspace host path d).1 ≡ returned folder
      → truthy folder ≡ true
      → (folder ≡ str path) × Holds (take_workspace host path d).0
  unfolding truthy
  taken d folder h t = elim (Bool-cases (path === "")) [
    | inl k ↦ absurd (ground (ap truthy (none_taken d folder k h), t, arith))
    | inr k ↦ (
      returned-eq (take_workspace host path d).1 (str path) folder ((taken-Yields k).yielded d) h,
      (taken-Ends k).ended d (ap has_thrown h),
    )
  ]

self_eq : (path : String) → (path === path) ≡ true
self_eq path = ground (arith, eq_iff path path)

-- What the page sends for a workspace.
abbrev payload_of : Value → Value
payload_of workspace = obj (object (("workspacePath", workspace) ∷ []))

-- The main process goes on with an installation of the workspace that it holds.
accepted :
    (host : Host) (path : String) (d : Desktop)
    → ((h : History) → host.can_encrypt h ≡ true)
    → Holds host path d
    → truthy (str path) ≡ true
    → truthy (account d).token ≡ true
    → install_and_pair host (payload_of (str path)) d
      ≡ install_and_record host (account d).token (account d).workspace d
unfolding install_and_pair account_of strict_eq lookup_field
accepted host path d enc (fs, same, held) there signed =
    let token : truthy (lookup_field "sessionToken" fs) ≡ true =
      ap (λ s. truthy (account_of (contents s)).token) (sym same) ∙ signed in
    let guarded : install_guarded host (payload_of (str path)) fs d
        ≡ install_and_record host (lookup_field "sessionToken" fs) (lookup_field "workspacePath" fs)
            d =
      rw (token, held, there, self_eq path) refl in
    ap (λ r. continue r (install_guarded host (payload_of (str path))))
      (read_state-sealed host d fs enc same)
    ∙ guarded
    ∙ ap
        (λ s.
          install_and_record host (account_of (contents s)).token
            (account_of (contents s)).workspace d)
        (sym same)

-- A workspace that the choose dialog returned is accepted for pairing, on a host whose encryption works
-- and with a session token in the settings: the page offers it as the payload of its installation,
-- whatever it showed before, and the main process, called with that payload, passes both of its
-- guards and installs with the account's token and workspace, which is the one returned.
pub choose-hands_over :
    (host : Host) (d : Desktop) (folder : Value) (s : Screen)
    → ((h : History) → host.can_encrypt h ≡ true)
    → (handle host choose_workspace d).1 ≡ returned folder
    → truthy folder ≡ true
    → truthy (account (handle host choose_workspace d).0).token ≡ true
    → let d' = (handle host choose_workspace d).0 in
      (payload : Value) × ((Page.install_and_pair (workspace_answered (returned folder) s)).1
        ≡ some payload)
      × (handle host (install payload) d'
          ≡ install_and_record host (account d').token (account d').workspace d')
      × ((account d').workspace ≡ folder)
unfolding handle on_choose_workspace Page.install_and_pair workspace_answered continue_to_setup
    show_panel account_of
choose-hands_over host d folder s enc h t signed =
    let title : String = "Select a local Git workspace" in
    let path : String = chosen (host.pick d.history title) in
    let start : Desktop = log (picked title) d in
    let both = taken host path start folder h t in
    let held = both.1 in
    let there : truthy (str path) ≡ true = ap truthy (sym both.0) ∙ t in
    (
      payload_of folder,
      rw t (rw t refl),
      ap (λ v. install_and_pair host (payload_of v) (take_workspace host path start).0) both.0
          ∙ accepted host path (take_workspace host path start).0 enc held there signed,
      ap (λ s. (account_of (contents s)).workspace) held.1 ∙ held.2 ∙ sym both.0,
    )
