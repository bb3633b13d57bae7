-- ===== src/Legacy/Chat/Ends.antt =====
-- frontend/src/hooks/useChat.ts: that every request of the older hook comes to its end.
use v.Prelude.{ℕ, suc, Bool, false, length, ◌≡◌}
use v.Js.{Value, get, Fetched, response, parsed}
use v.Legacy.Chat.{has_null, LegacyChat}

-- A request has ended in a chat that still renders.
abbrev IsEnded : ℕ → LegacyChat → Type 0
IsEnded n s = (s.loading ≡ false) × (length s.messages ≡ suc n) × (s.crashed ≡ false)

-- The answer lists a null event.
abbrev pub answers_null : Fetched Value → Bool
answers_null (response status (parsed body)) = has_null (get body "events")
answers_null _ = false
