-- ===== src/Http.antt =====
-- What a handler does to its `http.ResponseWriter` (net/http), as the sequence of its calls.
use order_flow.Prelude.{ℕ, ◌≡◌, String, Option, none, some, List, [], ◌∷◌, ◌++◌, arith}

pub data Emit : Type 0 where
  set_header : String → String → Emit
  write_header : ℕ → Emit
  write : String → Emit

abbrev pub Response : Type 0
Response = List Emit

-- The status line that is sent: the first `WriteHeader` counts, a `Write` before it sends 200, and
-- `none` is a response that has sent nothing yet. Status codes are final ones, from 200 up.
unfoldable pub sent_status : Response → Option ℕ
sent_status [] = none
sent_status (set_header k v ∷ es) = sent_status es
sent_status (write_header code ∷ es) = some code
sent_status (write body ∷ es) = some 200

-- A server sends 200 where the handler wrote nothing.
abbrev pub or_ok : Option ℕ → ℕ
or_ok none = 200
or_ok (some code) = code

abbrev pub final_status : Response → ℕ
final_status es = or_ok (sent_status es)

-- `http.Error(w, message, code)`
unfoldable pub http_error : String → ℕ → Response
http_error message code =
    set_header "Content-Type" "text/plain; charset=utf-8"
    ∷ set_header "X-Content-Type-Options" "nosniff"
    ∷ write_header code
    ∷ write message
    ∷ write "\n"
    ∷ []

abbrev pub status_created : ℕ
status_created = 201

abbrev pub status_bad_request : ℕ
status_bad_request = 400

abbrev pub status_not_found : ℕ
status_not_found = 404

abbrev pub status_request_timeout : ℕ
status_request_timeout = 408

abbrev pub status_too_many_requests : ℕ
status_too_many_requests = 429

abbrev pub status_internal_server_error : ℕ
status_internal_server_error = 500

abbrev pub status_service_unavailable : ℕ
status_service_unavailable = 503

-- Once a status is sent, nothing that follows changes it.
pub sent_status-append :
    (es fs : Response) (code : ℕ) → sent_status es ≡ some code → sent_status (es ++ fs) ≡ some code
unfolding sent_status
sent_status-append [] fs code h = ground arith
sent_status-append (set_header k v ∷ es) fs code h = sent_status-append es fs code h
sent_status-append (write_header c ∷ es) fs code h = h
sent_status-append (write body ∷ es) fs code h = h
