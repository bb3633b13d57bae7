-- ===== src/Cards.antt =====
-- frontend/client/src/components/ApprovalCards.tsx and WorkspaceInspector.tsx: the approval cards and the
-- forms of the context inspector.
pub mod Approval
pub mod Inspector
pub mod Devices
