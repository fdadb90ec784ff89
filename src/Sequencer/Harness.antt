-- ===== src/Sequencer/Harness.antt =====
-- tiers/tier_3/channel_sequencer_agent/channel_sequencer_agent_harness.py: the retries of a whole
-- sequence. Delays are numbers of one unit, and `max_retries` is a natural number: with a negative
-- one the loop has no round and the result is `None`.
use enterprise_ai_sales_orch.Prelude.{
  ℕ, zero, suc, ◌+◌, ◌*◌, ltb, min, Option, List, [], ◌∷◌, if◌then◌else◌,
}
use enterprise_ai_sales_orch.Prelude.Text.{Text, codes, or_text, or_empty}
use enterprise_ai_sales_orch.Harness.Retry.{Reply, returned, raised, interrupted}
use enterprise_ai_sales_orch.Sequencer.{
  SequenceRequest, SequenceResult, error, Action, Settings, Services,
}
use enterprise_ai_sales_orch.Sequencer.Agent.{build_sequence}

pub record ChannelSequencerAgentHarness : Type 0 where
  pub max_retries : ℕ
  pub initial_backoff : ℕ
  pub max_backoff : ℕ

-- How `execute` ends, with the number of attempts in its metadata: with a result, or with the status
-- "error" and the text of the last exception. `cancelled` is what no `except Exception` catches, and
-- `no_round` the end of the loop without a return.
pub data Ending (A : Type 0) : Type 0 where
  finished : A → ℕ → Ending A
  failed : Text → ℕ → Ending A
  cancelled no_round : Ending A

-- the ending, the world, and the delays that were slept
pub record Run (A W : Type 0) : Type 0 where
  pub ending : Ending A
  pub world : W
  pub sleeps : List ℕ

abbrev after_sleep : {A W : Type 0} → ℕ → Run A W → Run A W
after_sleep d r = record r { sleeps = d ∷ r.sleeps }

-- The result of the sequence, or the `ValueError` that its status "error" becomes.
unfoldable pub checked : Reply SequenceResult Text → Reply SequenceResult Text
checked (returned r) = elim r.status [
  | error ↦ raised (or_text (or_empty r.error_text) (codes "sequencer error"))
  | _ ↦ returned r
]
checked (raised e) = raised e
checked interrupted = interrupted

module _ {A W : Type 0} (h : ChannelSequencerAgentHarness) (body : Action W A) where
  -- The loop, with the rounds left, the number of failed attempts and the backoff.
  unfoldable pub rounds : ℕ → ℕ → ℕ → W → Run A W
  rounds zero attempt backoff w = record { ending = no_round; world = w; sleeps = [] }
  rounds (suc left) attempt backoff w =
      let (r, w') = body w in
      elim r [
        | returned a ↦ record { ending = finished a (attempt + 1); world = w'; sleeps = [] }
        | interrupted ↦ record { ending = cancelled; world = w'; sleeps = [] }
        | raised e ↦
            let rest = rounds left (attempt + 1) (min (backoff * 2) h.max_backoff) w' in
            if ltb h.max_retries (attempt + 1)
            then record { ending = failed e (attempt + 1); world = w'; sleeps = [] }
            else after_sleep backoff rest
      ]

module _ {W : Type 0} (settings : Settings) (services : Services W) where
  -- the body of the `try`
  unfoldable pub attempt_sequence : Option SequenceRequest → Action W SequenceResult
  unfolding checked
  attempt_sequence request w =
      let (r, w') = build_sequence settings services request w in (checked r, w')

  -- `execute`
  unfoldable pub execute :
      ChannelSequencerAgentHarness → Option SequenceRequest → W → Run SequenceResult W
  unfolding rounds attempt_sequence
  execute h request w =
      rounds h (attempt_sequence request) (h.max_retries + 1) 0 h.initial_backoff w
