-- ===== src/ContextMgr/Session.antt =====
-- `ucontext::session`.
use rednet.Common.{ℕ, ◌+◌, ◌^◌, ◌<◌, ◌≡◌, arith}
use rednet.ContextMgr.{session}

-- A session is positive and an `int`, and until the wrap it is the one before plus 1.
pub session_lem :
    (before : ℕ)
    → before < 2 ^ 31
    → (0 < session before)
      × (session before < 2 ^ 31)
      × (before + 1 < 2 ^ 31 → session before ≡ before + 1)
unfolding session
session_lem before h = ground arith
