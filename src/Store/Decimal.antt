-- ===== src/Store/Decimal.antt =====
-- src/store.rs: prices and multipliers as decimal texts. An amount is an `i64` in millionths.
pub mod RoundTrip
pub mod Trim
use Prim.Native.String.{◌++◌ as ◌<>◌}
use mathlib.Core.WellFounded.{Acc, WellFounded}
use mathlib.Core.Logic.{dite}
use native.Mathlib.Decide.{dec_lt}
use local_api_relay.Common.{
  ℕ, zero, suc, ◌+◌, ◌-◌, ◌*◌, ◌/◌, ◌%◌, ◌<◌, String, Bool, true, false, not, ◌&&◌, ◌||◌, Option,
  none, some, List, [], ◌∷◌, ◌++◌, length, all, ltb, leb, ◌==◌, if◌then◌else◌, arith, ◌≡◌, refl,
}
use local_api_relay.Common.Int.{ℤ, pos, negsuc, pos_part, neg_part, i64_max, sub_ℕ, ltb_ℤ}
use local_api_relay.Common.Text.{Text, codes, is_empty, trim, trim_end_matches, byte_len}
use local_api_relay.Store.{Result, ok, err, ◌>>=◌, ◌>>◌, guard, ok_or, field}

abbrev pub decimal_scale : ℕ
decimal_scale = 1_000_000

abbrev pub is_digit : ℕ → Bool
is_digit c = leb b'0' c && leb c b'9'

-- `str::split_once('.')`, with the whole text and an empty rest where there is no point.
unfoldable pub split_point : Text → Text × Text
split_point [] = ([], [])
split_point (c ∷ s) =
    let rest = split_point s in if c == b'.' then ([], s) else (c ∷ rest.0, rest.1)

abbrev pub starts_minus : Text → Bool
starts_minus [] = false
starts_minus (c ∷ s) = c == b'-'

-- `strip_prefix('-').unwrap_or(whole)`
abbrev pub strip_minus : Text → Text
strip_minus [] = []
strip_minus (c ∷ s) = if c == b'-' then s else c ∷ s

-- The number that digits spell after `n`.
unfoldable pub value_of : ℕ → Text → ℕ
value_of n [] = n
value_of n (c ∷ s) = value_of (n * 10 + (c - b'0')) s

-- `str::parse::<i64>` of a text of digits: `none` out of range.
unfoldable pub parse_i64 : Text → Option ℕ
unfolding value_of
parse_i64 s = if leb (value_of 0 s) i64_max then some (value_of 0 s) else none

-- `{fraction:0<6}`: zeros behind, up to the width.
unfoldable pub pad_end : ℕ → Text → Text
pad_end zero s = s
pad_end (suc n) [] = b'0' ∷ pad_end n []
pad_end (suc n) (c ∷ s) = c ∷ pad_end n s

unfoldable pub parse_decimal : Text → String → String → Result ℤ
unfolding split_point parse_i64 pad_end byte_len trim
parse_decimal text label column = do
  let out_of_range = field column (label <> " is outside the supported range")
  let parts = split_point (trim text)
  let digits = strip_minus parts.0
  let fraction = parts.1
  guard
      (not (is_empty digits || not (all is_digit digits))
        && not (ltb 6 (byte_len fraction) || not (all is_digit fraction)))
      (field column (label <> " must be a decimal with at most six decimal places"))
  whole ← ok_or (parse_i64 digits) out_of_range
  micros ← ok_or (parse_i64 (pad_end 6 fraction)) (field column (label <> " must be a decimal"))
  let scaled = whole * decimal_scale
  guard (leb scaled i64_max) out_of_range
  if starts_minus parts.0
      then (guard (leb (scaled + micros) (suc i64_max)) out_of_range
          >> ok (sub_ℕ 0 (scaled + micros)))
      else (guard (leb (scaled + micros) i64_max) out_of_range >> ok (pos (scaled + micros)))

unfoldable pub parse_positive_decimal : Text → String → String → Result ℤ
unfolding parse_decimal
parse_positive_decimal text label column = do
  parsed ← parse_decimal text label column
  guard (ltb_ℤ (pos 0) parsed) (field column (label <> " must be greater than zero"))
  ok parsed

unfoldable pub parse_non_negative_decimal : Text → String → String → Result ℤ
unfolding parse_decimal
parse_non_negative_decimal text label column = do
  parsed ← parse_decimal text label column
  guard (not (ltb_ℤ parsed (pos 0))) (field column (label <> " must not be negative"))
  ok parsed

-- The decimal digits of a number, at least one: `{whole}`.
acc_below : (k n : ℕ) → n < k → Acc ◌<◌ n
acc_below zero n h = absurd (omega arith)
acc_below (suc k) n h = Acc.intro n λ m lt. acc_below k m (omega arith)

lt_wf : WellFounded ◌<◌
unfolding acc_below
lt_wf = record { apply = λ n. acc_below (suc n) n (omega arith) }

emit_digits : (n : ℕ) → Acc ◌<◌ n → Text → Text
emit_digits n (Acc.intro _ smaller) out =
    dite (dec_lt 9 n)
      (λ h. emit_digits (n / 10) (smaller (n / 10) (omega arith)) ((b'0' + n % 10) ∷ out))
      (λ _. (b'0' + n) ∷ out)

unfoldable pub print_digits : ℕ → Text → Text
unfolding emit_digits lt_wf dec_lt
print_digits n out = emit_digits n (lt_wf.apply n) out

-- The last `k` digits of a number: `{fraction:06}` of a number below a million.
unfoldable pub print_padded : ℕ → ℕ → Text → Text
print_padded zero n out = out
print_padded (suc k) n out = print_padded k (n / 10) ((b'0' + n % 10) ∷ out)

-- The text of an amount without its sign, after a text for the sign.
unfoldable pub format_parts : Text → ℕ → Text
unfolding print_digits print_padded trim_end_matches
format_parts sign absolute =
    let whole = absolute / decimal_scale in
    let fraction = absolute % decimal_scale in
    if fraction == 0
    then sign ++ print_digits whole []
    else trim_end_matches (λ c. c == b'0')
        (sign ++ print_digits whole (b'.' ∷ print_padded 6 fraction []))

abbrev pub sign_of : ℤ → Text
sign_of v = if ltb_ℤ v (pos 0) then b'-' ∷ [] else []

unfoldable pub format_decimal : ℤ → Text
format_decimal v = format_parts (sign_of v) (pos_part v + neg_part v)
