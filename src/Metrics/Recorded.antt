-- ===== src/Metrics/Recorded.antt =====
-- What the HTTP middleware of internal/metrics/metrics.go records.
use order_flow.Prelude.{
  ◌≡◌, refl, Bool, true, false, ℕ, ◌+◌, [], ◌∷◌, All, length, String, Duration,
}
use order_flow.Http.{Response, set_header, write_header, write}
use order_flow.Metrics.{Metrics, Request, new, updates, http_middleware}

-- The bytes that are written.
abbrev pub written : (String → ℕ) → Response → ℕ
written byte_length [] = 0
written byte_length (set_header k v ∷ es) = written byte_length es
written byte_length (write_header code ∷ es) = written byte_length es
written byte_length (write body ∷ es) = byte_length body + written byte_length es

-- No call of WriteHeader.
abbrev no_status : Response → Bool
no_status [] = true
no_status (set_header k v ∷ es) = no_status es
no_status (write_header code ∷ es) = false
no_status (write body ∷ es) = no_status es

-- A handler calls WriteHeader at most once, and before it writes.
abbrev pub is_orderly : Response → Bool
is_orderly [] = true
is_orderly (set_header k v ∷ es) = is_orderly es
is_orderly (write_header code ∷ es) = no_status es
is_orderly (write body ∷ es) = no_status es

module _ (byte_length : String → ℕ) where
  -- Every update of the middleware gives the new metrics as many label values as they have labels, so
  -- that WithLabelValues does not panic.
  http_middleware-labels :
      (status_text : ℕ → String) (r : Request) (calls : Response) (duration : Duration)
      → All
          (λ u. length u.label_values ≡ length u.metric.labels)
          (http_middleware status_text byte_length new r calls duration).1
  unfolding http_middleware updates new
  http_middleware-labels status_text r calls duration = (refl, (refl, (refl, (refl, tt))))
