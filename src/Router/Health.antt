-- ===== src/Router/Health.antt =====
-- The health of a server on one side: the type Health, isHealthy, and what RecordSuccess and
-- RecordFailure do to one entry. `A` stands for float64; `is_zero` and `blend` for the test of the
-- average against 0 and for avg*0.8 + latency*0.2.
use fi_mcp_kit.Base.{
  ℕ, ◌+◌, ◌-◌, String, Bool, true, false, Option, none, some, ltb, leb, if◌then◌else◌,
}

pub record Health (A : Type 0) : Type 0 where
  pub healthy : Bool
  pub last_check : ℕ
  pub last_success : ℕ
  pub last_error : ℕ
  pub error_message : String
  pub consec_fails : ℕ
  pub avg_latency : A

-- What Route reads of the settings.
pub record Limits : Type 0 where
  pub failure_threshold : ℕ
  pub recovery_time : ℕ

module _ {A : Type 0} where
  -- On a pointer that may be nil. Past the recovery time a failing server may be probed.
  unfoldable pub is_healthy : Limits → ℕ → Option (Health A) → Bool
  is_healthy l now none = false
  is_healthy l now (some h) =
      if leb l.failure_threshold h.consec_fails
      then (if ltb (now - h.last_error) l.recovery_time then false else true)
      else h.healthy

  -- &Health{} with a latency of 0, and the entry that New makes.
  abbrev pub zero_health : A → Health A
  zero_health z = record {
    healthy = false;
    last_check = 0;
    last_success = 0;
    last_error = 0;
    error_message = "";
    consec_fails = 0;
    avg_latency = z;
  }

  abbrev pub new_health : A → Health A
  new_health z = record (zero_health z) { healthy = true }

  unfoldable pub succeed : (A → Bool) → (A → A → A) → ℕ → A → Health A → Health A
  succeed is_zero blend now latency h = record {
    healthy = true;
    last_check = now;
    last_success = now;
    last_error = h.last_error;
    error_message = "";
    consec_fails = 0;
    avg_latency = if is_zero h.avg_latency then latency else blend h.avg_latency latency;
  }

  unfoldable pub fail : Limits → ℕ → String → Health A → Health A
  fail l now message h = record {
    healthy = if leb l.failure_threshold (h.consec_fails + 1) then false else h.healthy;
    last_check = now;
    last_success = h.last_success;
    last_error = now;
    error_message = message;
    consec_fails = h.consec_fails + 1;
    avg_latency = h.avg_latency;
  }
