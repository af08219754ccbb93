-- ===== src/Dlq/Tests.antt =====
-- The theorem on the dead letter queue (internal/dlq/dlq.go) at a concrete input.
use order_flow.Prelude.{◌≡◌, refl, [], ◌∷◌, map, pos, true, arith}
use order_flow.Errors.{str}
use order_flow.Config.{DlqConfig}
use order_flow.Dlq.{Bytes, DlqMessage, Result, succeeded, service, retried, process_dlq}
use order_flow.Dlq.Redelivery.{Sent, message_of, send_all, process_dlq-send_all}

abbrev cfg : DlqConfig
cfg = record { enabled = true; topic = "orders-dlq"; max_retries = pos 3 }

abbrev sent : Sent
sent = record { now = 7; message = 123 ∷ []; reason = str "down" ∷ [] }

-- The one byte 1 for the one message.
abbrev encode : DlqMessage → Bytes
encode m = 1 ∷ []

abbrev unmarshal : Bytes → Result DlqMessage
unmarshal bytes = succeeded (message_of (pos 0) sent)

process_dlq-send_all_example :
    process_dlq unmarshal (service cfg) (map succeeded (send_all encode cfg (sent ∷ sent ∷ []) []))
    ≡ retried (message_of (pos 1) sent) ∷ retried (message_of (pos 1) sent) ∷ []
process_dlq-send_all_example =
    process_dlq-send_all encode cfg unmarshal (sent ∷ sent ∷ []) refl (omega arith)
      (refl, (refl, tt))
