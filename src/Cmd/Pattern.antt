-- ===== src/Cmd/Pattern.antt =====
-- cmd/patterns.go and the errors of cmd/errors.go.
use bmagent.Base.{
  ℕ, ◌+◌, ◌-◌, ◌*◌, Bool, true, false, ◌&&◌, ◌||◌, Option, none, some, List, [], ◌∷◌, map, length,
  ltb, leb, ◌==◌, if◌then◌else◌, Text, codes, text_eq, join,
}

pub data Key : Type 0 where
  repeated repeated_null boolean natural string symbol : Key

unfoldable pub key_string : Key → Text
key_string repeated = codes "+"
key_string repeated_null = codes "*"
key_string boolean = codes " boolean"
key_string natural = codes " natural"
key_string string = codes " string"
key_string symbol = codes " symbol"

unfoldable pub pattern_string : List Key → Text
unfolding key_string join
pattern_string keys = join [] (map key_string keys)

pub data Error : Type 0 where
  invalid_string invalid_boolean invalid_type invalid_rpc_request : Error
  unknown_command : Text → Error
  unrecognized_pattern : Text → List (List Key) → Error
  invalid_number_of_parameters : List Text → ℕ → Error
  invalid_number : Text → Error
  message : Text → Error

-- What a function returns: a value, an error, or a panic.
pub data Outcome {ℓ} (A : Type ℓ) : Type ℓ where
  ok : A → Outcome A
  fail : Error → Outcome A
  panic : Outcome A

infixl 5 ◌>>=◌
abbrev pub ◌>>=◌ {ℓ κ} : {A : Type ℓ} {B : Type κ} → Outcome A → (A → Outcome B) → Outcome B
ok a >>= f = f a
fail e >>= f = fail e
panic >>= f = panic

-- The pointer that a parameter is read into: `*bool`, `*uint64`, `*string`, or another type.
pub data Element : Type 0 where
  to_bool to_uint64 to_string to_other : Element

pub data Value : Type 0 where
  bool_value : Bool → Value
  uint64_value : ℕ → Value
  string_value : Text → Value

-- `strconv.ParseUint(param, 10, 64)`: decimal digits, at least one, below 2 ^ 64.
unfoldable pub parse_digits : ℕ → Text → Option ℕ
parse_digits n [] = some n
parse_digits n (c ∷ cs) =
    let more = parse_digits (n * 10 + (c - b'0')) cs in
    if leb b'0' c && leb c b'9' then more else none

unfoldable pub parse_uint : Text → Option ℕ
unfolding parse_digits
parse_uint [] = none
parse_uint (c ∷ cs) = elim (parse_digits 0 (c ∷ cs)) [
  | none ↦ none
  | some n ↦ if ltb n 18446744073709551616 then some n else none
]

-- `regexString.Match`: somewhere a quote, and a later quote on the same line.
unfoldable pub closes_quote : Text → Bool
closes_quote [] = false
closes_quote (c ∷ cs) = c == b'"' || (if c == 10 then false else closes_quote cs)

unfoldable pub has_quoted : Text → Bool
unfolding closes_quote
has_quoted [] = false
has_quoted (c ∷ cs) = (c == b'"' && closes_quote cs) || has_quoted cs

-- `param[1 : len(param)-1]`, of a text of two bytes or more.
unfoldable pub init : Text → Text
init [] = []
init (c ∷ []) = []
init (c ∷ d ∷ cs) = c ∷ init (d ∷ cs)

unfoldable pub unquote : Text → Text
unfolding init
unquote [] = []
unquote (c ∷ cs) = init cs

-- One round of the loop of `ReadPattern`.
unfoldable pub read_element : Text → Element → Outcome Value
unfolding parse_uint has_quoted unquote
read_element param to_bool =
    if text_eq param (codes "true")
    then ok (bool_value true)
    else if text_eq param (codes "false")
    then ok (bool_value false)
    else fail invalid_boolean
read_element param to_uint64 = elim (parse_uint param) [
  | none ↦ fail (invalid_number param)
  | some n ↦ ok (uint64_value n)
]
read_element param to_string =
    if has_quoted param then ok (string_value (unquote param)) else fail invalid_string
read_element param to_other = fail invalid_type

unfoldable pub read_elements : List Text → List Element → Outcome (List Value)
unfolding read_element
read_elements (param ∷ params) (e ∷ elements) = do
  v ← read_element param e
  vs ← read_elements params elements
  ok (v ∷ vs)
read_elements _ _ = ok []

-- `ReadPattern`: the values that are read into the pointers.
unfoldable pub read_pattern : List Text → List Element → Outcome (List Value)
unfolding read_elements
read_pattern params elements =
    if length params == length elements
    then read_elements params elements
    else fail (invalid_number_of_parameters params (length elements))
