-- ===== src/Dlq.antt =====
-- The dead letter queue of internal/dlq/dlq.go. The JSON encoding and the Kafka writer are parameters;
-- a read of the Kafka reader is its outcome.
pub mod Redelivery
mod Tests
use order_flow.Prelude.{
  ℕ, ◌≡◌, Bool, true, false, Option, none, some, List, [], ◌∷◌, map, ℤ, pos, ltb_ℤ, succ_int,
  if◌then◌else◌, Time,
}
use order_flow.Errors.{GoError, Message, str, annotated}
use order_flow.Config.{DlqConfig}

abbrev pub Bytes : Type 0
Bytes = List ℕ

-- `DLQMessage`
pub record DlqMessage : Type 0 where
  pub original_message : Bytes
  pub reason : Message
  pub timestamp : Time
  pub retry_count : ℤ

-- The result of a call that may fail.
pub data Result (A : Type 0) : Type 0 where
  failed : GoError → Result A
  succeeded : A → Result A

-- The implementations of the interface `DLQService`.
pub data DlqService : Type 0 where
  no_op : DlqService
  service : DlqConfig → DlqService

unfoldable pub new_dlq_service : DlqConfig → DlqService
new_dlq_service cfg = if cfg.enabled then service cfg else no_op

-- `fmt.Errorf` with %w, where there is an error
abbrev pub annotate : Message → Option GoError → Option GoError
annotate m none = none
annotate m (some e) = some (annotated m e)

module _ {W : Type 0} (marshal : DlqMessage → Result Bytes)
    (write_message : Bytes → W → Option GoError × W) where
  abbrev write_result : Result Bytes → W → Option GoError × W
  write_result (failed e) w = (some (annotated (str "failed to marshal DLQ message: " ∷ []) e), w)
  write_result (succeeded bytes) w =
      let (err, w') = write_message bytes w in
      (annotate (str "failed to send message to DLQ: " ∷ []) err, w')

  -- `SendToDLQ`, at a reading of the clock
  unfoldable pub send_to_dlq : DlqService → Time → Bytes → Message → W → Option GoError × W
  send_to_dlq no_op now message reason w = (none, w)
  send_to_dlq (service cfg) now message reason w =
      write_result
        (marshal (record {
          original_message = message;
          reason = reason;
          timestamp = now;
          retry_count = pos 0;
        }))
        w

-- What one pass of the loop of ProcessDLQ does with what it read. `retried` is the call of retryMessage,
-- which logs the message and returns nil.
pub data Outcome : Type 0 where
  not_read : GoError → Outcome
  not_parsed : GoError → Outcome
  dropped : DlqMessage → Outcome
  retried : DlqMessage → Outcome

module _ (unmarshal : Bytes → Result DlqMessage) where
  take_message : DlqConfig → Result DlqMessage → Outcome
  take_message cfg (failed e) = not_parsed e
  take_message cfg (succeeded m) =
      let counted = record m { retry_count = succ_int m.retry_count } in
      if ltb_ℤ cfg.max_retries counted.retry_count then dropped counted else retried counted

  unfoldable pub process_read : DlqConfig → Result Bytes → Outcome
  unfolding take_message
  process_read cfg (failed e) = not_read e
  process_read cfg (succeeded bytes) = take_message cfg (unmarshal bytes)

  -- `ProcessDLQ`, over the reads that its loop makes
  unfoldable pub process_dlq : DlqService → List (Result Bytes) → List Outcome
  unfolding process_read
  process_dlq no_op reads = []
  process_dlq (service cfg) reads = if cfg.enabled then map (process_read cfg) reads else []
