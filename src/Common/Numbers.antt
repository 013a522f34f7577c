-- ===== src/Common/Numbers.antt =====
-- `strconv.Atoi` and `strconv.ParseBool`, and `strings.TrimPrefix`, as internal/config/config.go and
-- internal/api/handlers.go use them.
use Prim.Native.Char.{Char, code}
use Prim.Native.String.{String, [], ◌∷◌, len, slice}
use text.Mathlib.Text.{starts_with}
use gpu_cluster_scheduler.Common.{
  ℕ, ◌+◌, ◌-◌, ◌*◌, ◌^◌, leb, ltb, ◌==◌, ℤ, pos, sub_ℕ, str_eq, Bool, true, false, ◌&&◌, ◌||◌,
  if◌then◌else◌, Option, none, some,
}

abbrev digit_of : Char → Option ℕ
digit_of c = if leb 48 (code c) && leb (code c) 57 then some (code c - 48) else none

-- The number that the rest of a text spells, after digits that spell `n`.
unfoldable pub digits_from : ℕ → String → Option ℕ
digits_from n [] = some n
digits_from n (c ∷ s) = elim (digit_of c) [ none ↦ none | some d ↦ digits_from (n * 10 + d) s ]

unfoldable pub digits : String → Option ℕ
unfolding digits_from
digits [] = none
digits (c ∷ s) = digits_from 0 (c ∷ s)

in_range : Bool → ℕ → Option ℤ
in_range negative n =
    if negative
    then (if leb n (2 ^ 63) then some (sub_ℕ 0 n) else none)
    else (if ltb n (2 ^ 63) then some (pos n) else none)

signed : Bool → Option ℕ → Option ℤ
unfolding in_range
signed negative none = none
signed negative (some n) = in_range negative n

-- `none` is a text that spells no 64-bit number.
unfoldable pub atoi : String → Option ℤ
unfolding signed digits
atoi [] = none
atoi (c ∷ s) =
    if code c == 45
    then signed true (digits s)
    else if code c == 43
    then signed false (digits s)
    else signed false (digits (c ∷ s))

unfoldable pub parse_bool : String → Option Bool
parse_bool t =
    if str_eq t "1"
      || str_eq t "t"
      || str_eq t "T"
      || str_eq t "TRUE"
      || str_eq t "true"
      || str_eq t "True"
    then some true
    else if str_eq t "0"
        || str_eq t "f"
        || str_eq t "F"
        || str_eq t "FALSE"
        || str_eq t "false"
        || str_eq t "False"
    then some false
    else none

unfoldable pub trim_prefix : String → String → String
trim_prefix s p = if starts_with s p then slice s (len p) (len s) else s
