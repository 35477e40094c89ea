-- ===== src/Flextape/Invocation.antt =====
-- The invocation of flextape/service/service.go: one client's request for a license.
use enkit.Common.{ℕ, String}

-- Go keeps invocations behind pointers. An invocation stands in one container at a time, under an
-- `id` that is unique there, so that a value updated in its container stands for the pointer.
-- `queue_id` is 0 while the invocation is not queued.
pub record Invocation : Type 0 where
  pub id : String
  pub owner : String
  pub build_tag : String
  pub last_checkin : ℕ
  pub queue_id : ℕ
