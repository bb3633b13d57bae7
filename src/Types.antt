-- ===== src/Types.antt =====
-- frontend/client/src/types.ts: the domain types that the hooks and components share, by subject.
-- An optional or nullable property is an `Option`, and so is one that may be either.
pub mod Run
pub mod Project
pub mod Device
