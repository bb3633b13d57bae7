-- ===== src/Hooks.antt =====
-- frontend/client/src/hooks, the small hooks, and the state of the small components: the composition
-- guard of text inputs, the session, the theme, the login dialog, the error boundary, the breakpoint.
pub mod Composition
pub mod Input
pub mod Auth
pub mod Display
