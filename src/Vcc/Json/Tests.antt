-- ===== src/Vcc/Json/Tests.antt =====
-- src/vcc.ts: the strict JSON reader on concrete texts.
use opencode_better_compact.Base.{
  ◌≡◌, refl, true, false, none, some, ◌+◌, Text, codes, member, eq_text,
}
use opencode_better_compact.Base.Value.{
  Value, null, bool, num, str, arr, obj, nil, cons, end, field, Number, int, other,
}
use opencode_better_compact.Utf8.{utf8_bytes}
use opencode_better_compact.Vcc.Json.{parse, read_value, enough}
use opencode_better_compact.Vcc.Json.Sizes.{IsLimited}
use opencode_better_compact.Vcc.Json.Limits.{parse-IsLimited}
use opencode_better_compact.Vcc.Json.Fuel.{read_value-enough}

abbrev no_double : Text → Number
no_double t = other 0

parse_nested :
    parse no_double (codes "{ \"a\" : [1, -20, true], \"b\":{\"c\":null,\"d\":\"x\\u0041\\n\"}} ")
    ≡ some (
        obj (
          field
            (codes "a")
            (arr (cons (num (int false 1)) (cons (num (int true 20)) (cons (bool true) nil))))
            (field
              (codes "b")
              (obj (field (codes "c") null (field (codes "d") (str (codes "xA\n")) end)))
              end)))
unfolding parse codes utf8_bytes member eq_text
parse_nested = refl

parse_duplicate : parse no_double (codes "{\"a\":1,\"a\":2}") ≡ none
unfolding parse codes utf8_bytes member eq_text
parse_duplicate = refl

abbrev small_array : Text
small_array = codes "[1,\"a\"]"

abbrev small_value : Value
small_value = arr (cons (num (int false 1)) (cons (str (codes "a")) nil))

parse_small : parse no_double small_array ≡ some small_value
unfolding parse codes utf8_bytes
parse_small = refl

parse-IsLimited_example : IsLimited 0 small_value
parse-IsLimited_example = parse-IsLimited no_double small_array small_value parse_small

read_value-enough_example :
    read_value no_double (enough small_array + 5) 0 small_array
    ≡ read_value no_double (enough small_array) 0 small_array
read_value-enough_example = read_value-enough no_double small_array 0 5
