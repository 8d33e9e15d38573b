-- ===== src/Readiness/Pipeline/Attempts.antt =====
-- ReadinessPipeline._run_suite: how often a suite is attempted, and what comes of it.
use domain_determine.Base.{
  ℕ, suc, ◌+◌, ◌≤◌, ◌<◌, String, ◌≡◌, ◌⊎◌, Bool, true, false, nat_eq, string_eq,
}
use domain_determine.Readiness.Pipeline.{
  Ended, succeeded, called_process_error, timeout_expired, os_failure, Clock, SuiteConfig,
  ReadinessSuiteResult, os_error, Ran, ran, raised, tries, is_empty,
}

-- The loop goes on after it: the command failed or reached the time limit.
abbrev pub is_retried : Ended → Bool
is_retried succeeded = false
is_retried (called_process_error e) = true
is_retried (timeout_expired e) = true
is_retried (os_failure e) = false

abbrev pub AllRetried : (ℕ → Ended) → ℕ → ℕ → Type 0
AllRetried attempt made n = (i : ℕ) → made < i → i < n → is_retried (attempt i) ≡ true

-- What the loop over the attempts leaves, after `made` attempts and with `left` to go
abbrev pub Tried : (ℕ → Ended) → ℕ → ℕ → Ran (ℕ × Bool × String) → Type 0
Tried attempt made left (ran (n, succeeds, last)) =
    ((succeeds ≡ true)
      × (made < n)
      × (n ≤ made + left)
      × (attempt n ≡ succeeded)
      × AllRetried attempt made n)
    ⊎ ((succeeds ≡ false) × (n ≡ made + left) × AllRetried attempt made (suc n))
Tried attempt made left (raised error) =
    (n : ℕ) × (e : String) × (made < n)
    × (n ≤ made + left)
    × (attempt n ≡ os_failure e)
    × (error ≡ os_error e)
    × AllRetried attempt made n

module _ (clock : Clock) where
  module _ (attempt : ℕ → Ended) (config : SuiteConfig clock) where
    -- The suite has its result at an attempt that succeeded, or after all its attempts.
    abbrev pub Finished : ReadinessSuiteResult clock → Type 0
    Finished r =
        ((1 ≤ r.attempts)
          × (r.attempts ≤ tries config.retries)
          × (attempt r.attempts ≡ succeeded)
          × AllRetried attempt 0 r.attempts
          × (r.passed ≡ is_empty clock r.threshold_violations))
        ⊎ ((r.attempts ≡ tries config.retries)
            × AllRetried attempt 0 (suc r.attempts)
            × (r.passed ≡ false))

    -- An attempt raised OSError, with this text.
    abbrev pub Escaped : String → Type 0
    Escaped e =
        (n : ℕ) × (1 ≤ n)
        × (n ≤ tries config.retries)
        × (attempt n ≡ os_failure e)
        × AllRetried attempt 0 n

    abbrev pub Ends : Ran (ReadinessSuiteResult clock) → Type 0
    Ends result =
        ((r : ReadinessSuiteResult clock) × (result ≡ ran r) × Finished r)
        ⊎ ((e : String) × (result ≡ raised (os_error e)) × Escaped e)
