-- ===== src/Harness/AgentHarness/Outcome.antt =====
-- How an execution ends, and a step of it: an action on the world that may stop the execution.

-- What `execute` raises: `QuotaExceededError`, an exception of the agent or a component,
-- `RetryExhaustedError` from the last exception, the retry loop's own error, and what is no `Exception`.
pub data Failure (E : Type 0) : Type 0 where
  quota_exceeded : Failure E
  error : E → Failure E
  retries_exhausted : E → Failure E
  retry_logic_error : Failure E
  interruption : Failure E

pub data Result (A E : Type 0) : Type 0 where
  ok : A → Result A E
  stop : Failure E → Result A E

abbrev pub Action : Type 0 → Type 0 → Type 0 → Type 0
Action W E A = W → Result A E × W

infixl 5 ◌>>=◌ ◌>>◌
abbrev pub ◌>>=◌ : {W E A B : Type 0} → Action W E A → (A → Action W E B) → Action W E B
◌>>=◌ m f w = let (r, w') = m w in elim r [ ok a ↦ f a w' | stop f ↦ (stop f, w') ]

abbrev pub ◌>>◌ : {W E A B : Type 0} → Action W E A → Action W E B → Action W E B
m >> k = m >>= λ _. k

abbrev pub modify : {W E : Type 0} → (W → W) → Action W E (Unit {0})
modify f w = (ok tt, f w)
