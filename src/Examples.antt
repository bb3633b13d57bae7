-- ===== src/Examples.antt =====
-- The theorems at concrete inputs, by the parts of the client.
mod Chat
mod Project
mod Screen
mod Desktop
