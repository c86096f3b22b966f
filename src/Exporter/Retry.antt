-- ===== src/Exporter/Retry.antt =====
-- `callWithRetry` of exporter.go: exponential backoff under the deadline of the context.
pub mod Outcome
use xray_exporter.Common.{
  ℕ, zero, suc, ◌+◌, ◌-◌, ◌*◌, ◌^◌, Option, none, some, List, [], ◌∷◌, ◌==◌, if◌then◌else◌,
}
use xray_exporter.Text.{Text, codes}

-- What a gRPC call returns.
pub data Reply {ℓ} (A : Type ℓ) : Type ℓ where
  replied : A → Reply A
  call_error : Text → Reply A

-- What is outside: the reply to each attempt, and which case of the `select` after an attempt is
-- taken, the timer (`none`) or the context with its error.
pub record Endpoint {ℓ} (A : Type ℓ) : Type ℓ where
  pub call : ℕ → Reply A
  pub wait : ℕ → ℕ → Option Text

pub data Retried {ℓ} (A : Type ℓ) : Type ℓ where
  answered : A → Retried A
  call_failed cancelled : Text → Retried A
  exceeded : Retried A

abbrev pub max_retries : ℕ
max_retries = 3

-- 100 ms in nanoseconds
abbrev pub base_delay : ℕ
base_delay = 100_000_000

abbrev pub delay : ℕ → ℕ
delay attempt = base_delay * 2 ^ attempt

-- The delays that the timers were set to, and the result.
abbrev pub Run {ℓ} : Type ℓ → Type ℓ
Run A = List ℕ × Retried A

module _ {ℓ} {A : Type ℓ} where
  -- the `select`; `rest` is the run of the attempts that follow
  after_wait : ℕ → Option Text → Run A → Run A
  after_wait d none rest = (d ∷ rest.0, rest.1)
  after_wait d (some e) rest = (d ∷ [], cancelled e)

  after_call : Endpoint A → ℕ → Reply A → Run A → Run A
  unfolding after_wait
  after_call net attempt (replied resp) rest = ([], answered resp)
  after_call net attempt (call_error e) rest =
      if attempt == max_retries - 1
      then ([], call_failed e)
      else after_wait (delay attempt) (net.wait attempt (delay attempt)) rest

  -- the loop, with `left` attempts to go
  try_from : Endpoint A → ℕ → ℕ → Run A
  unfolding after_call
  try_from net attempt zero = ([], exceeded)
  try_from net attempt (suc left) =
      let rest = try_from net (suc attempt) left in after_call net attempt (net.call attempt) rest

  unfoldable pub call_with_retry : Endpoint A → Run A
  unfolding try_from
  call_with_retry net = try_from net 0 max_retries
