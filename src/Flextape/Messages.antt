-- ===== src/Flextape/Messages.antt =====
-- What the handlers of flextape/service/service.go read and answer.
use enkit.Common.{ℕ, String, List}

-- The messages of flextape.proto that the service reads.
pub record LicenseSpec : Type 0 where
  pub vendor : String
  pub feature : String

pub data PrioritizerConfig : Type 0 where
  fifo_config even_owners_config unset : PrioritizerConfig

pub record LicenseConfig : Type 0 where
  pub spec : LicenseSpec
  pub quantity : ℕ
  pub policy : PrioritizerConfig

pub record ServerConfig : Type 0 where
  pub queue_refresh_seconds : ℕ
  pub allocation_refresh_seconds : ℕ
  pub janitor_interval_seconds : ℕ
  pub adoption_seconds : ℕ

pub record InvocationMsg : Type 0 where
  pub licenses : List LicenseSpec
  pub owner : String
  pub build_tag : String
  pub id : String

-- The status codes that the handlers return.
pub data Code : Type 0 where
  invalid_argument not_found internal failed_precondition resource_exhausted : Code

pub data Result {ℓ} (A : Type ℓ) : Type ℓ where
  ok : A → Result A
  err : Code → Result A

pub data AllocateResponse : Type 0 where
  -- invocation id and refresh deadline
  license_allocated : String → ℕ → AllocateResponse
  -- invocation id, next poll time and queue position
  queued : String → ℕ → ℕ → AllocateResponse

pub record RefreshResponse : Type 0 where
  pub invocation_id : String
  pub refresh_deadline : ℕ

-- What timeNow returns where a handler makes an invocation, where it updates LastCheckin, and where
-- it computes the deadline of its answer. A time is a number of nanoseconds since Go's zero time.
pub record Clock : Type 0 where
  pub created : ℕ
  pub checkin : ℕ
  pub answered : ℕ
