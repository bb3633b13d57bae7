-- ===== src/Legacy.antt =====
-- frontend/src: the first version of the client, which still stands beside frontend/client. Its chat
-- keeps every event in one list, and its transport is a WebSocket that reconnects.
pub mod Socket
pub mod Chat
pub mod View
