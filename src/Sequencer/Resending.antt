-- ===== src/Sequencer/Resending.antt =====
-- A sequence that fails after its emails were sent, and the retries of the harness.
use enterprise_ai_sales_orch.Prelude.{ℕ, ◌+◌, ◌≡◌, true, none}
use enterprise_ai_sales_orch.Prelude.Text.{Text}
use enterprise_ai_sales_orch.Harness.Retry.{returned}
use enterprise_ai_sales_orch.Sequencer.{SequenceStep, SequenceRequest, Settings, Services}
use enterprise_ai_sales_orch.Sequencer.Guards.{hard_stop_reason}
use enterprise_ai_sales_orch.Sequencer.Agent.{is_email, is_complete}

-- an email that is due, and one that nothing stops
pub record IsDue (step : SequenceStep) : Type 0 where
  pub now : step.delay_minutes ≡ 0
  pub email : is_email step ≡ true

pub record IsFree (settings : Settings) (request : SequenceRequest) (step : SequenceStep)
    : Type 0 where
  pub due : IsDue step
  pub complete : is_complete step ≡ true
  pub not_stopped : hard_stop_reason settings step request ≡ none

-- A mail server that takes every email, where each call of it hands over one.
abbrev pub Takes : {W : Type 0} → Services W → (W → ℕ) → Type 0
Takes {W} services mails =
    (step : SequenceStep) (w : W)
    → (id : Text) × ((services.send_email step w).0 ≡ returned id)
      × (mails (services.send_email step w).1 ≡ mails w + 1)
