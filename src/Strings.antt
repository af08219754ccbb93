-- ===== src/Strings.antt =====
-- What the service uses of Go's strings, strconv and net packages, over native strings.
use Prim.Native.Char.{code}
use order_flow.Prelude.{
  ℕ, zero, suc, ◌+◌, ◌-◌, ◌*◌, ◌≡◌, refl, Bool, true, false, not, ◌&&◌, ◌||◌, Option, none, some,
  List, [], ◌∷◌, String, ℤ, pos, negsuc, leb, ◌==◌, if◌then◌else◌, max_int,
}

-- The code points of a text: its bytes, if it is ASCII.
abbrev pub codes : String → List ℕ
codes String.[] = []
codes (String.◌∷◌ c s) = code c ∷ codes s

-- The rest of the text after a prefix that it has.
unfoldable pub strip_prefix : String → String → Option String
strip_prefix String.[] s = some s
strip_prefix (String.◌∷◌ c p) String.[] = none
strip_prefix (String.◌∷◌ c p) (String.◌∷◌ d s) =
    let rest = strip_prefix p s in if code c == code d then rest else none

abbrev pub is_some {ℓ} : {A : Type ℓ} → Option A → Bool
is_some none = false
is_some (some a) = true

-- `strings.HasPrefix(s, prefix)`
unfoldable pub has_prefix : String → String → Bool
unfolding strip_prefix
has_prefix s prefix = is_some (strip_prefix prefix s)

abbrev pub get_or {ℓ} : {A : Type ℓ} → Option A → A → A
get_or none d = d
get_or (some a) d = a

-- `strings.TrimPrefix(s, prefix)`
unfoldable pub trim_prefix : String → String → String
unfolding strip_prefix
trim_prefix s prefix = get_or (strip_prefix prefix s) s

-- `strings.Split(s, sep)[0]` for a separator of one character, by its code
unfoldable pub before_sep : ℕ → String → String
before_sep sep String.[] = String.[]
before_sep sep (String.◌∷◌ c s) =
    if code c == sep then String.[] else String.◌∷◌ c (before_sep sep s)

-- `strings.ToLower` on the ASCII letters
abbrev pub lower_code : ℕ → ℕ
lower_code c = if leb b'A' c && leb c b'Z' then c + 32 else c

unfoldable pub to_lower : List ℕ → List ℕ
to_lower [] = []
to_lower (c ∷ cs) = lower_code c ∷ to_lower cs

unfoldable pub eqb_codes : List ℕ → List ℕ → Bool
eqb_codes [] [] = true
eqb_codes (c ∷ cs) (d ∷ ds) = c == d && eqb_codes cs ds
eqb_codes [] (d ∷ ds) = false
eqb_codes (c ∷ cs) [] = false

unfoldable pub one_of : List String → List ℕ → Bool
unfolding eqb_codes
one_of [] cs = false
one_of (s ∷ ss) cs = eqb_codes (codes s) cs || one_of ss cs

abbrev pub is_digit : ℕ → Bool
is_digit c = leb b'0' c && leb c b'9'

-- The value of a run of digits after the value so far; `none` at anything else.
unfoldable pub digits_value : ℕ → List ℕ → Option ℕ
digits_value n [] = some n
digits_value n (c ∷ cs) =
    let rest = digits_value (n * 10 + (c - b'0')) cs in if is_digit c then rest else none

abbrev pub nonempty_digits : List ℕ → Option ℕ
nonempty_digits [] = none
nonempty_digits (c ∷ cs) = digits_value 0 (c ∷ cs)

abbrev pub positive_int : Option ℕ → Option ℤ
positive_int none = none
positive_int (some n) = if leb n max_int then some (pos n) else none

abbrev pub negative_int : Option ℕ → Option ℤ
negative_int none = none
negative_int (some zero) = some (pos 0)
negative_int (some (suc n)) = if leb n max_int then some (negsuc n) else none

-- `strconv.Atoi`: an optional sign and decimal digits, in the range of a 64-bit `int`
unfoldable pub atoi : List ℕ → Option ℤ
unfolding digits_value
atoi [] = none
atoi (c ∷ cs) =
    if c == b'-'
    then negative_int (nonempty_digits cs)
    else positive_int (nonempty_digits (if c == b'+' then cs else c ∷ cs))

unfoldable pub contains_code : ℕ → List ℕ → Bool
contains_code x [] = false
contains_code x (c ∷ cs) = c == x || contains_code x cs

-- The text before and after the last colon.
unfoldable pub split_last : List ℕ → Option (List ℕ × List ℕ)
split_last [] = none
split_last (c ∷ cs) = elim (split_last cs) [
  | some (a, b) ↦ some (c ∷ a, b)
  | none ↦ if c == b':' then some ([], cs) else none
]

-- The text before and after the first closing bracket.
unfoldable pub split_bracket : List ℕ → Option (List ℕ × List ℕ)
split_bracket [] = none
split_bracket (c ∷ cs) = elim (split_bracket cs) [
  | some (a, b) ↦ if c == b']' then some ([], cs) else some (c ∷ a, b)
  | none ↦ if c == b']' then some ([], cs) else none
]

no_bracket : List ℕ → Bool
no_bracket cs = not (contains_code b'[' cs) && not (contains_code b']' cs)

plain_host_port : List ℕ → Option (List ℕ × List ℕ)
plain_host_port cs = elim (split_last cs) [
  | none ↦ none
  | some (host, port) ↦
      if not (contains_code b':' host) && no_bracket cs then some (host, port) else none
]

after_bracket : List ℕ → List ℕ → Option (List ℕ × List ℕ)
after_bracket host [] = none
after_bracket host (c ∷ port) =
    if c == b':'
      && not (contains_code b':' port)
      && not (contains_code b'[' host)
      && no_bracket port
    then some (host, port)
    else none

-- `net.SplitHostPort`: host:port, or [host]:port where the host has colons
unfoldable pub split_host_port : List ℕ → Option (List ℕ × List ℕ)
unfolding contains_code split_last split_bracket no_bracket plain_host_port after_bracket
split_host_port [] = none
split_host_port (c ∷ cs) =
    if c == b'['
    then (elim (split_bracket cs) [ none ↦ none | some (host, rest) ↦ after_bracket host rest ])
    else plain_host_port (c ∷ cs)

splits : split_host_port (codes "localhost:9092") ≡ some (codes "localhost", codes "9092")
unfolding split_host_port
splits = refl

splits_v6 : split_host_port (codes "[::1]:80") ≡ some (codes "::1", codes "80")
unfolding split_host_port
splits_v6 = refl

splits_not : split_host_port (codes "::1") ≡ none
unfolding split_host_port
splits_not = refl

atoi_runs : atoi (codes "-120") ≡ some (negsuc 119)
unfolding atoi
atoi_runs = refl

-- `s + t`
unfoldable pub append_str : String → String → String
append_str String.[] t = t
append_str (String.◌∷◌ c s) t = String.◌∷◌ c (append_str s t)
