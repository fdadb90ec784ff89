-- ===== src/Consumer/Tests.antt =====
-- A consumer on a world that counts the calls.
use enterprise_ai_sales_orch.Prelude.{
  ℕ, ◌+◌, ◌≡◌, refl, arith, true, false, Option, none, some, [], ◌∷◌,
}
use enterprise_ai_sales_orch.Prelude.Int.{pos}
use enterprise_ai_sales_orch.Prelude.Text.{Text, codes}
use enterprise_ai_sales_orch.Harness.Retry.{returned, raised}
use enterprise_ai_sales_orch.Envelope.{Envelope, task, normal}
use enterprise_ai_sales_orch.Sequencer.{SequenceRequest, Settings, Services, accepted}
use enterprise_ai_sales_orch.Dlq.{Fields, Json}
use enterprise_ai_sales_orch.Consumer.{
  ChannelSequencerAgentConsumer, Calls, consumer, handle, handle_all, process_task,
}
use enterprise_ai_sales_orch.Consumer.Handling.{Handled, handle-Handled}
use enterprise_ai_sales_orch.Consumer.Poison.{handle_all_stops}

-- the messages of a client that decodes, and those of one that does not
data Message : Type 0 where
  decoded : Fields → Message
  bytes : Message

dumped : Message → Option Text
dumped (decoded f) = some []
dumped bytes = none

abbrev sample_json : Json Message
sample_json = record { dict = decoded; dumps = dumped; loads = λ t. none }

abbrev settings : Settings
settings = record {
  hard_stop_keywords = [];
  max_per_hour = 0;
  max_new_threads = 0;
  approval_mode = [];
  webhook_url = λ t. [];
}

abbrev services : Services ℕ
services = record {
  has_redis = false;
  hour_key = λ t w. t;
  day_key = λ t w. t;
  incr = λ k w. (returned 1, w + 1);
  now = λ w. w;
  send_email = λ s w. (returned [], w + 1);
  post_webhook = λ u s r w. (returned accepted, w + 1);
}

abbrev envelope : Envelope Unit Unit
envelope = task [] 0 [] (codes "manager") (codes "task-1") tt none normal none

read_message : Message → Option (Envelope Unit Unit)
read_message (decoded f) = some envelope
read_message bytes = none

abbrev calls : Calls Message Unit Unit ℕ
calls = record {
  from_redis_message = read_message;
  to_redis_fields = λ e. decoded [];
  request_of =
      λ p. some (record { tenant_id = codes "acme"; lead_id = none; steps = []; context = [] });
  result_payload = λ r n. tt;
  persistence_task = λ t e r s d w. none;
  time = λ w. w;
  date = λ w. [];
  new_id = λ w. [];
  type_name = λ e. e;
  xadd = λ s j w. (returned [], w + 1);
  xack = λ s g id w. (returned 1, w + 1);
  xpending = λ s g id w. (returned (some 3), w + 1);
}

abbrev worker : ChannelSequencerAgentConsumer
worker =
    consumer (codes "acme") (codes "sequencing-workers") (codes "worker_1") (codes ":dlq") (pos 3)
      true (record { max_retries = 3; initial_backoff = 1; max_backoff = 30 })

-- two calls answer a message
two_calls :
    handle sample_json settings services calls worker (codes "1-0") (decoded []) 0
    ≡ (returned tt, 2)
unfolding handle read_message consumer enterprise_ai_sales_orch.Sequencer.Agent.build_sequence
two_calls = refl

handle-Handled_example :
    Handled sample_json settings services calls worker
      (codes "1-0")
      (decoded [])
      0
      (handle sample_json settings services calls worker (codes "1-0") (decoded []) 0).1
unfolding handle read_message consumer enterprise_ai_sales_orch.Sequencer.Agent.build_sequence
handle-Handled_example =
    handle-Handled sample_json settings services calls worker (codes "1-0") (decoded []) 0 refl

handle_all_stops_example :
    handle_all sample_json settings services calls worker
      ((codes "1-0", bytes) ∷ (codes "2-0", decoded []) ∷ [])
      0
    ≡ (raised (codes "TypeError"), 1)
unfolding process_task read_message consumer dumped
handle_all_stops_example =
    handle_all_stops sample_json settings services calls worker (codes "1-0") bytes
      ((codes "2-0", decoded []) ∷ []) 3 0 1 refl refl refl refl (omega arith)
