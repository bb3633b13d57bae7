-- ===== src/Hooks/Display.antt =====
-- frontend/client/src: contexts/ThemeContext.tsx, components/ManusDialog.tsx, components/ErrorBoundary.tsx,
-- hooks/useMobile.tsx and hooks/usePersistFn.ts.
use v.Prelude.{
  ℕ, Bool, true, false, not, Option, none, some, if◌then◌else◌, ◌≡◌, refl, ltb, suc, zero,
}

pub data Theme : Type 0 where
  light dark : Theme

-- What the browser keeps: the `dark` class of the document, and the item `theme` of the storage.
pub record Browser : Type 0 where
  pub dark_class : Bool
  pub stored_theme : Option Theme

abbrev theme_or : Option Theme → Theme → Theme
theme_or none fallback = fallback
theme_or (some t) fallback = t

-- The first theme of `ThemeProvider`. The storage holds what the provider itself wrote, or nothing.
unfoldable pub first_theme : Bool → Theme → Browser → Theme
first_theme switchable default_theme b =
    if switchable then theme_or b.stored_theme default_theme else default_theme

abbrev pub is_dark : Theme → Bool
is_dark dark = true
is_dark light = false

-- The effect, which runs for every theme.
unfoldable pub apply_theme : Bool → Theme → Browser → Browser
apply_theme switchable t b = record {
  dark_class = is_dark t;
  stored_theme = if switchable then some t else b.stored_theme;
}

abbrev flip : Theme → Theme
flip light = dark
flip dark = light

-- `toggleTheme`, which is undefined for a fixed theme, and the effect after it.
unfoldable pub toggle_theme : Bool → Theme × Browser → Theme × Browser
unfolding apply_theme
toggle_theme switchable (t, b) =
    if switchable then (flip t, apply_theme switchable (flip t) b) else (t, b)

-- `ThemeProvider` when it is mounted.
unfoldable pub mount_theme : Bool → Theme → Browser → Theme × Browser
unfolding first_theme apply_theme
mount_theme switchable default_theme b = (
  first_theme switchable default_theme b,
  apply_theme switchable (first_theme switchable default_theme b) b,
)

-- As often toggled as told.
unfoldable pub toggle_times : ℕ → Bool → Theme × Browser → Theme × Browser
unfolding toggle_theme
toggle_times zero switchable s = s
toggle_times (suc n) switchable s = toggle_times n switchable (toggle_theme switchable s)

-- `ManusDialog`: the state inside, the `open` property, and whether `onOpenChange` is given.
pub record DialogState : Type 0 where
  pub internal_open : Bool
  pub open_prop : Bool
  pub controlled : Bool

-- What the dialog's callbacks were called with.
pub record DialogCalls : Type 0 where
  pub open_change : Option Bool
  pub closed : Bool

-- The effect on `[open, onOpenChange]`.
unfoldable pub sync_dialog : DialogState → DialogState
sync_dialog s = if s.controlled then s else record s { internal_open = s.open_prop }

-- `handleOpenChange`
unfoldable pub handle_open_change : Bool → DialogState → DialogState × DialogCalls
handle_open_change next s =
    if s.controlled
    then (s, record { open_change = some next; closed = not next })
    else (record s { internal_open = next }, record { open_change = none; closed = not next })

-- `onOpenChange ? open : internalOpen`
unfoldable pub dialog_open : DialogState → Bool
dialog_open s = if s.controlled then s.open_prop else s.internal_open

-- `ErrorBoundary`: its state, by the error caught.
pub record BoundaryState (E : Type 0) : Type 0 where
  pub has_error : Bool
  pub error : Option E

unfoldable pub initial_boundary : {E : Type 0} → BoundaryState E
initial_boundary = record { has_error = false; error = none }

unfoldable pub derive_state_from_error : {E : Type 0} → E → BoundaryState E
derive_state_from_error e = record { has_error = true; error = some e }

-- What is rendered: the children, or the fallback with the stack of the error.
pub data Rendered (C E : Type 0) : Type 0 where
  children : C → Rendered C E
  fallback : Option E → Rendered C E

unfoldable pub render_boundary : {C E : Type 0} → C → BoundaryState E → Rendered C E
render_boundary c s = if s.has_error then fallback s.error else children c

-- `useIsMobile`: the state is unset until the effect reads the width of the window.
unfoldable pub is_mobile : Option Bool → Bool
is_mobile none = false
is_mobile (some b) = b

unfoldable pub measure : ℕ → Option Bool
measure inner_width = some (ltb inner_width 768)

-- `usePersistFn`: the function of the latest render, behind one wrapper that is made once.
pub record PersistFn (A B : Type 0) : Type 0 where
  pub fn_ref : A → B
  pub persist_fn : Option ℕ

abbrev made_once : Option ℕ → ℕ → ℕ
made_once none fresh = fresh
made_once (some w) fresh = w

-- One render, with the wrapper that it would make if there is none yet; the wrapper it returns.
unfoldable pub render_persist : {A B : Type 0} → (A → B) → ℕ → PersistFn A B → PersistFn A B × ℕ
render_persist f fresh p = (
  record { fn_ref = f; persist_fn = some (made_once p.persist_fn fresh) },
  made_once p.persist_fn fresh,
)

-- A call of the wrapper.
unfoldable pub call_persist : {A B : Type 0} → PersistFn A B → A → B
call_persist p a = p.fn_ref a

-- The provider keeps the document in step with the theme, however often it is toggled; a switchable
-- theme is also what the storage holds, so that a provider mounted later starts with it.
pub toggle_times-remount :
    (n : ℕ) (default_theme other : Theme) (b : Browser)
    → ((toggle_times n true (mount_theme true default_theme b)).1.dark_class
        ≡ is_dark (toggle_times n true (mount_theme true default_theme b)).0)
      × (first_theme true other (toggle_times n true (mount_theme true default_theme b)).1
          ≡ (toggle_times n true (mount_theme true default_theme b)).0)
unfolding toggle_times mount_theme toggle_theme apply_theme first_theme
toggle_times-remount n default_theme other b = kept n (first_theme true default_theme b) b
  where
    kept :
        (n : ℕ) (t : Theme) (b : Browser)
        → ((toggle_times n true (t, apply_theme true t b)).1.dark_class
            ≡ is_dark (toggle_times n true (t, apply_theme true t b)).0)
          × (first_theme true other (toggle_times n true (t, apply_theme true t b)).1
              ≡ (toggle_times n true (t, apply_theme true t b)).0)
    kept zero t b = (refl, refl)
    kept (suc n) t b = kept n (flip t) (apply_theme true t b)
