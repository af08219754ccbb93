-- ===== src/Config/Addresses.antt =====
-- Which broker addresses the validator of internal/config/validator.go accepts.
use mathlib.Core.Option.{some_inj}
use order_flow.Prelude.{
  ℕ, ◌≡◌, ◌≢◌, ◌↔◌, refl, ap, ◌∙◌, Option, none, some, List, [], ◌∷◌, String, ℤ, arith,
}
use order_flow.Strings.{codes, atoi, split_host_port}
use order_flow.Config.Validator.{validate_host_port, port_error, host_port_error}
use order_flow.Config.Sections.{IsPort}

-- A broker's address: a host that is not empty and a port in range.
pub record IsAddress (addr : String) : Type 0 where
  pub host : List ℕ
  pub port_text : List ℕ
  pub port : ℤ
  pub parts : split_host_port (codes addr) ≡ some (host, port_text)
  pub host_nonempty : host ≢ []
  pub number : atoi port_text ≡ some port
  pub range : IsPort port

port_error_iff : (p : Option ℤ) → (port_error p ≡ none) ↔ ((n : ℤ) × (p ≡ some n) × IsPort n)
unfolding port_error
port_error_iff none = (λ h. cc, λ (n, e, range). cc)
port_error_iff (some n) =
    (λ h. (n, refl, ground arith), λ (m, e, range). let same = some_inj.0 e in ground arith)

-- The parts of an address.
abbrev Parts : Option (List ℕ × List ℕ) → Type 0
Parts s =
    (host port_text : List ℕ) × (n : ℤ) × (s ≡ some (host, port_text))
    × (host ≢ [])
    × (atoi port_text ≡ some n)
    × IsPort n

host_port_error-none : (s : Option (List ℕ × List ℕ)) → host_port_error s ≡ none → Parts s
unfolding host_port_error
host_port_error-none none h = cc
host_port_error-none (some ([], port)) h = cc
host_port_error-none (some (c ∷ cs, port)) h =
    let (n, number, range) = (port_error_iff (atoi port)).0 h in
    (c ∷ cs, port, n, refl, (λ e. cc), number, range)

host_port_error-accepts :
    (host port_text : List ℕ) (n : ℤ)
    → host ≢ []
    → atoi port_text ≡ some n
    → IsPort n
    → host_port_error (some (host, port_text)) ≡ none
unfolding host_port_error
host_port_error-accepts [] port_text n ne number range = absurd (ne refl)
host_port_error-accepts (c ∷ cs) port_text n ne number range =
    (port_error_iff (atoi port_text)).1 (n, number, range)

-- The validator accepts exactly the addresses with a host and a port between 1 and 65535.
pub validate_host_port-eq_none : (addr : String) → (validate_host_port addr ≡ none) ↔ IsAddress addr
unfolding validate_host_port
validate_host_port-eq_none addr = (
  λ h.
      let (host, port_text, n, parts, ne, number, range) =
        host_port_error-none (split_host_port (codes addr)) h in
      record {
        host = host;
        port_text = port_text;
        port = n;
        parts = parts;
        host_nonempty = ne;
        number = number;
        range = range;
      },
  λ a.
      ap host_port_error a.parts
      ∙ host_port_error-accepts a.host a.port_text a.port a.host_nonempty a.number a.range,
)
