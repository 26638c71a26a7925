-- ===== src/Vcc/Json/Tokens.antt =====
-- src/vcc.ts: the tokens of the strict JSON reader (`StrictJsonReader.space`, `string`, and the
-- number of `value`). The reader's position is the rest of its text.
use opencode_better_compact.Base.{
  ℕ, zero, suc, ◌+◌, ◌-◌, ◌*◌, true, false, ◌&&◌, ◌||◌, Option, none, some, [], ◌∷◌, ◌++◌, Text,
  ltb, leb, ◌==◌, if◌then◌else◌,
}
use opencode_better_compact.Base.Value.{Number, int, ◌>>=◌}
use opencode_better_compact.Utf8.{utf8_bytes}
use opencode_better_compact.Vcc.Event.Ids.{is_space, is_digit}

unfoldable pub skip_space : Text → Text
skip_space [] = []
skip_space (c ∷ s) = let later = skip_space s in if is_space c then later else c ∷ s

-- The units, and then what is read.
abbrev pub before : Text → Option (Text × Text) → Option (Text × Text)
before units none = none
before units (some (raw, rest)) = some (units ++ raw, rest)

-- Up to the first quote that no backslash precedes: what stands before it, and what follows it.
unfoldable pub scan_string : Text → Option (Text × Text)
scan_string [] = none
scan_string (c ∷ []) = if c == b'"' then some ([], []) else none
scan_string (c ∷ d ∷ s) =
    let plain = before (c ∷ []) (scan_string (d ∷ s)) in
    let skipped = before (c ∷ d ∷ []) (scan_string s) in
    if c == b'"' then some ([], d ∷ s) else if c == b'\\' then skipped else plain

-- The value of a hexadecimal digit.
abbrev pub hex_value : ℕ → Option ℕ
hex_value c =
    if leb b'0' c && leb c b'9'
    then some (c - b'0')
    else if leb b'a' c && leb c b'f'
    then some (c - b'a' + 10)
    else if leb b'A' c && leb c b'F'
    then some (c - b'A' + 10)
    else none

-- What a letter after a backslash stands for.
abbrev pub escape_value : ℕ → Option ℕ
escape_value c =
    if c == b'"' || c == b'\\' || c == b'/'
    then some c
    else if c == b'b'
    then some 8
    else if c == b'f'
    then some 12
    else if c == b'n'
    then some 10
    else if c == b'r'
    then some 13
    else if c == b't'
    then some 9
    else none

-- Inside a literal: nothing pending, a backslash, or the digits of `\u` that are still to come with
-- the value of those before.
pub data Pending : Type 0 where
  plain escaped : Pending
  hex : ℕ → ℕ → Pending

abbrev pub prepend : ℕ → Option Text → Option Text
prepend c none = none
prepend c (some t) = some (c ∷ t)

-- `JSON.parse` of what stands between the quotes of a literal.
unfoldable pub unescape : Pending → Text → Option Text
unescape plain [] = some []
unescape escaped [] = none
unescape (hex left value) [] = none
unescape plain (c ∷ s) =
    let after = unescape escaped s in
    let kept = prepend c (unescape plain s) in
    if c == b'\\' then after else if ltb c 32 then none else kept
unescape escaped (c ∷ s) =
    let digits = unescape (hex 3 0) s in
    let rest = unescape plain s in
    if c == b'u' then digits else do d ← escape_value c; prepend d rest
unescape (hex zero value) (c ∷ s) =
    let rest = unescape plain s in do d ← hex_value c; prepend (value * 16 + d) rest
unescape (hex (suc left) value) (c ∷ s) = do d ← hex_value c; unescape (hex left (value * 16 + d)) s

abbrev pub max_string_bytes : ℕ
max_string_bytes = 4096

-- `string`, after the opening quote.
unfoldable pub read_string : Text → Option (Text × Text)
unfolding scan_string unescape
read_string s = do
  (raw, rest) ← scan_string s
  value ← unescape plain raw
  if leb (utf8_bytes value) max_string_bytes then some (value, rest) else none

-- `\d*`, and what follows.
unfoldable pub take_digits : Text → Text × Text
take_digits [] = ([], [])
take_digits (c ∷ s) =
    let later = take_digits s in if is_digit c then (c ∷ later.0, later.1) else ([], c ∷ s)

-- `0|[1-9]\d*`
unfoldable pub take_integer : Text → Option (Text × Text)
unfolding take_digits
take_integer [] = none
take_integer (c ∷ s) =
    let later = take_digits s in
    if c == b'0'
    then some (c ∷ [], s)
    else if leb b'1' c && leb c b'9'
    then some (c ∷ later.0, later.1)
    else none

-- A mark, and the digits after it; nothing where no digit follows.
abbrev pub with_digits : Text → Text → Text → Text × Text
with_digits mark digits_text whole =
    let later = take_digits digits_text in
    elim (later.0) [ [] ↦ ([], whole) | d ∷ ds ↦ (mark ++ d ∷ ds, later.1) ]

-- `(?:\.\d+)?`
unfoldable pub take_fraction : Text → Text × Text
unfolding take_digits
take_fraction [] = ([], [])
take_fraction (c ∷ s) = if c == b'.' then with_digits (c ∷ []) s (c ∷ s) else ([], c ∷ s)

-- `(?:[eE][+-]?\d+)?`
unfoldable pub take_exponent : Text → Text × Text
unfolding take_digits
take_exponent [] = ([], [])
take_exponent (c ∷ []) = ([], c ∷ [])
take_exponent (c ∷ d ∷ s) =
    if c == b'e' || c == b'E'
    then if d == b'+' || d == b'-'
      then with_digits (c ∷ d ∷ []) s (c ∷ d ∷ s)
      else with_digits (c ∷ []) (d ∷ s) (c ∷ d ∷ s)
    else ([], c ∷ d ∷ s)

-- The integer that digits stand for, after those before.
unfoldable pub decimal_from : ℕ → Text → ℕ
decimal_from n [] = n
decimal_from n (c ∷ s) = decimal_from (n * 10 + (c - b'0')) s

-- Up to this every integer is a double.
abbrev pub max_exact_integer : ℕ
max_exact_integer = 9007199254740992

abbrev pub take_sign : Text → Text × Text
take_sign [] = ([], [])
take_sign (c ∷ s) = if c == b'-' then (c ∷ [], s) else ([], c ∷ s)

-- `Number` of a literal that is no small integer is a parameter.
module _ (read_double : Text → Number) where
  abbrev pub number_of : Text → Text → Text → Number
  number_of sign digits [] =
      if leb (decimal_from 0 digits) max_exact_integer
      then int (elim sign [ [] ↦ false | _ ∷ _ ↦ true ]) (decimal_from 0 digits)
      else read_double (sign ++ digits)
  number_of sign digits (c ∷ rest) = read_double (sign ++ (digits ++ c ∷ rest))

  unfoldable pub read_number : Text → Option (Number × Text)
  unfolding take_integer take_fraction take_exponent decimal_from
  read_number s = do
    (digits, rest) ← take_integer (take_sign s).1
    let fraction = take_fraction rest
    let exponent = take_exponent fraction.1
    some (number_of (take_sign s).0 digits (fraction.0 ++ exponent.0), exponent.1)
