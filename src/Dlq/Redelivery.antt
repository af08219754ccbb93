-- ===== src/Dlq/Redelivery.antt =====
-- Messages through the dead letter queue (internal/dlq/dlq.go): sent, and then processed.
use mathlib.Core.List.{append_assoc, append-nil}
use order_flow.Prelude.{
  ◌≡◌, sym, ap, ◌∙◌, true, Option, none, List, [], ◌∷◌, ◌++◌, map, ℤ, pos, ◌≤ℤ◌, Time, arith, All,
}
use order_flow.Errors.{GoError, Message}
use order_flow.Config.{DlqConfig}
use order_flow.Dlq.{
  Bytes, DlqMessage, Result, succeeded, service, send_to_dlq, retried, process_read, process_dlq,
}

-- A call of SendToDLQ.
pub record Sent : Type 0 where
  pub now : Time
  pub message : Bytes
  pub reason : Message

-- The topic, as a writer that does not fail leaves it.
abbrev pub enqueue : Bytes → List Bytes → Option GoError × List Bytes
enqueue bytes topic = (none, topic ++ (bytes ∷ []))

-- The message of a call, with a count of the retries.
abbrev pub message_of : ℤ → Sent → DlqMessage
message_of n s = record {
  original_message = s.message;
  reason = s.reason;
  timestamp = s.now;
  retry_count = n;
}

module _ (encode : DlqMessage → Bytes) (cfg : DlqConfig) where
  -- The topic after calls.
  unfoldable pub send_all : List Sent → List Bytes → List Bytes
  send_all [] topic = topic
  send_all (s ∷ ss) topic =
      send_all ss
        (send_to_dlq (λ m. succeeded (encode m)) enqueue (service cfg) s.now s.message s.reason
          topic).1

  send_all-map :
      (ss : List Sent) (topic : List Bytes)
      → send_all ss topic ≡ topic ++ map (λ s. encode (message_of (pos 0) s)) ss
  unfolding send_all send_to_dlq
  send_all-map [] topic = sym (append-nil topic)
  send_all-map (s ∷ ss) topic =
      send_all-map ss (topic ++ (encode (message_of (pos 0) s) ∷ []))
      ∙ append_assoc topic (encode (message_of (pos 0) s) ∷ [])
          (map (λ s. encode (message_of (pos 0) s)) ss)

  process_map :
      (unmarshal : Bytes → Result DlqMessage) (ss : List Sent)
      → cfg.enabled ≡ true
      → pos 1 ≤ℤ cfg.max_retries
      → All (λ s. unmarshal (encode (message_of (pos 0) s)) ≡ succeeded (message_of (pos 0) s)) ss
      → process_dlq unmarshal
          (service cfg)
          (map succeeded (map (λ s. encode (message_of (pos 0) s)) ss))
        ≡ map (λ s. retried (message_of (pos 1) s)) ss
  unfolding process_dlq process_read
  process_map unmarshal [] en le tt = ground arith
  process_map unmarshal (s ∷ ss) en le (round, rounds) =
      let rest = process_map unmarshal ss en le rounds in ground (arith, round)

  -- For a queue that is enabled, with a positive maximum of retries, and a writer that does not fail:
  -- each message that is sent to an empty topic is processed once, in its order and with its contents,
  -- and always as its first retry, whatever the maximum is. The encodings of the messages are ones that
  -- the decoding reads back.
  pub process_dlq-send_all :
      (unmarshal : Bytes → Result DlqMessage) (ss : List Sent)
      → cfg.enabled ≡ true
      → pos 1 ≤ℤ cfg.max_retries
      → All (λ s. unmarshal (encode (message_of (pos 0) s)) ≡ succeeded (message_of (pos 0) s)) ss
      → process_dlq unmarshal (service cfg) (map succeeded (send_all ss []))
        ≡ map (λ s. retried (message_of (pos 1) s)) ss
  process_dlq-send_all unmarshal ss en le round =
      ap (λ q. process_dlq unmarshal (service cfg) (map succeeded q)) (send_all-map ss [])
      ∙ process_map unmarshal ss en le round
