-- ===== src/Store/Decimal/RoundTrip.antt =====
-- src/store.rs, `format_decimal` and `parse_decimal`: the round trip.
use mathlib.Core.Logic.{ite, dite}
use mathlib.Core.WellFounded
use mathlib.Core.WellFounded.{Acc, Acc-prop}
use native.Mathlib.Decide.{dec_lt}
use local_api_relay.Common.{
  ℕ, suc, ◌+◌, ◌/◌, ◌%◌, ◌≤◌, ◌<◌, true, false, some, [], ◌∷◌, ◌++◌, append_assoc, length, all, ltb,
  ◌==◌, if◌then◌else◌, arith, ◌≡◌, refl, ap, ◌∙◌,
}
use local_api_relay.Common.{String, ◌*◌, Bool-cases, inl, inr}
use local_api_relay.Common.Int.{ℤ, pos, negsuc, i64_max, sub_ℕ, IsI64}
use local_api_relay.Common.Text.{Text, is_empty, trim, trim_end_matches}
use local_api_relay.Store.{ok}
use local_api_relay.Store.Decimal.{
  decimal_scale, is_digit, starts_minus, strip_minus, emit_digits, lt_wf, print_digits,
  print_padded, value_of, split_point, parse_i64, pad_end, parse_decimal, format_parts,
  format_decimal,
}
use local_api_relay.Store.Decimal.Trim.{
  end_matches-append, end_matches-all, end_matches-length, all-append, digits_decimal, trim_decimal,
  pad-end_matches, is_decimal, split-digits, split_whole, byte_len-digits,
}

emit_step :
    (n : ℕ) (w : Acc ◌<◌ n) (w' : Acc ◌<◌ (n / 10)) (out : Text)
    → emit_digits n w out
      ≡ ite (dec_lt 9 n) (emit_digits (n / 10) w' ((b'0' + n % 10) ∷ out)) ((b'0' + n) ∷ out)
unfolding emit_digits
emit_step n (Acc.intro _ smaller) w' out = λ i.
    dite (dec_lt 9 n)
      (λ h.
        emit_digits (n / 10) (Acc-prop (smaller (n / 10) (omega arith)) w' i)
          ((b'0' + n % 10) ∷ out))
      (λ _. (b'0' + n) ∷ out)

digits_step :
    (n : ℕ) (out : Text)
    → print_digits n out
      ≡ ite (dec_lt 9 n) (print_digits (n / 10) ((b'0' + n % 10) ∷ out)) ((b'0' + n) ∷ out)
unfolding print_digits
digits_step n out = emit_step n (lt_wf.apply n) (lt_wf.apply (n / 10)) out

-- What the printed digits are: digits, at least one, that spell the number.
pub value-digits : (n : ℕ) (out : Text) → value_of 0 (print_digits n out) ≡ value_of n out
unfolding value_of
value-digits n =
    WellFounded.induction lt_wf
      {C = λ m. (out : Text) → value_of 0 (print_digits m out) ≡ value_of m out} n
      λ m ih out. grind (arith, digits_step m out, ih (m / 10))

pub all-digits : (n : ℕ) (out : Text) → all is_digit (print_digits n out) ≡ all is_digit out
all-digits n =
    WellFounded.induction lt_wf
      {C = λ m. (out : Text) → all is_digit (print_digits m out) ≡ all is_digit out} n
      λ m ih out. grind (arith, digits_step m out, ih (m / 10))

pub digits_nonempty : (n : ℕ) (out : Text) → is_empty (print_digits n out) ≡ false
digits_nonempty n =
    WellFounded.induction lt_wf {C = λ m. (out : Text) → is_empty (print_digits m out) ≡ false} n
      λ m ih out. grind (arith, digits_step m out, ih (m / 10))

pub digits-append :
    (n : ℕ) (out rest : Text) → print_digits n (out ++ rest) ≡ print_digits n out ++ rest
digits-append n =
    WellFounded.induction lt_wf
      {C = λ m. (out rest : Text) → print_digits m (out ++ rest) ≡ print_digits m out ++ rest} n
      λ m ih out rest. grind (arith, digits_step m (out ++ rest), digits_step m out, ih (m / 10))

-- The six digits of a fraction.
pub padded :
    (n : ℕ)
    → n < 1_000_000
    → (value_of 0 (print_padded 6 n []) ≡ n)
      × (all is_digit (print_padded 6 n []) ≡ true)
      × (length (print_padded 6 n []) ≡ 6)
unfolding value_of print_padded
padded n h = (omega arith, ground arith, refl)

no_minus : (s : Text) → all is_digit s ≡ true → starts_minus s ≡ false
no_minus [] h = refl
no_minus (c ∷ s) h = ground arith

strip_none : (s : Text) → all is_digit s ≡ true → strip_minus s ≡ s
strip_none [] h = refl
strip_none (c ∷ s) h = ground arith

fits : (s : Text) (n : ℕ) → value_of 0 s ≡ n → n ≤ i64_max → parse_i64 s ≡ some n
unfolding parse_i64
fits s n e h = rw e (ground arith)

-- What the parser computes from the two halves of a text in its format.
module _ (label column : String) (text digits fraction : Text) (whole micros : ℕ)
    (all_digits : all is_digit digits ≡ true) (nonempty : is_empty digits ≡ false)
    (all_fraction : all is_digit fraction ≡ true) (short : length fraction ≤ 6)
    (is_whole : value_of 0 digits ≡ whole) (is_micros : value_of 0 (pad_end 6 fraction) ≡ micros)
    (small : micros < 1_000_000) where
  pub parse_unsigned :
      split_point (trim text) ≡ (digits, fraction)
      → whole * decimal_scale + micros ≤ i64_max
      → parse_decimal text label column ≡ ok (pos (whole * decimal_scale + micros))
  unfolding parse_decimal
  parse_unsigned e bound =
      rw
        (
          e,
          strip_none digits all_digits,
          no_minus digits all_digits,
          nonempty,
          all_digits,
          byte_len-digits fraction all_fraction,
          all_fraction,
          fits digits whole is_whole (omega arith),
          fits (pad_end 6 fraction) micros is_micros (omega arith),
        )
        (ground arith)

  pub parse_signed :
      split_point (trim text) ≡ (b'-' ∷ digits, fraction)
      → whole * decimal_scale + micros ≤ suc i64_max
      → parse_decimal text label column ≡ ok (sub_ℕ 0 (whole * decimal_scale + micros))
  unfolding parse_decimal
  parse_signed e bound =
      rw
        (
          e,
          nonempty,
          all_digits,
          byte_len-digits fraction all_fraction,
          all_fraction,
          fits digits whole is_whole (omega arith),
          fits (pad_end 6 fraction) micros is_micros (omega arith),
        )
        (ground arith)

-- The digits before the point and those behind it, without the zeros at the end.
abbrev whole_digits : ℕ → Text
whole_digits n = print_digits (n / decimal_scale) []

abbrev fraction_digits : ℕ → Text
fraction_digits n = trim_end_matches (λ c. c == b'0') (print_padded 6 (n % decimal_scale) [])

-- The texts that the printer writes for a sum of millionths, with no sign and with one.
abbrev unsigned : ℕ → Text
unsigned n =
    if n % decimal_scale == 0 then whole_digits n else whole_digits n ++ b'.' ∷ fraction_digits n

fraction_text :
    (sign : Text) (n : ℕ)
    → trim_end_matches
        (λ c. c == b'0')
        (sign ++ print_digits (n / decimal_scale) (b'.' ∷ print_padded 6 (n % decimal_scale) []))
      ≡ sign ++ (whole_digits n ++ b'.' ∷ fraction_digits n)
fraction_text sign n =
    rw (digits-append (n / decimal_scale) [] (b'.' ∷ print_padded 6 (n % decimal_scale) [])) (
      rw (← append_assoc sign (whole_digits n) (b'.' ∷ print_padded 6 (n % decimal_scale) [])) (
        rw
          (end_matches-append (λ c. c == b'0') b'.' (sign ++ whole_digits n)
            (print_padded 6 (n % decimal_scale) []) refl)
          (append_assoc sign (whole_digits n) (b'.' ∷ fraction_digits n))))

format_parts_lem : (sign : Text) (n : ℕ) → format_parts sign n ≡ sign ++ unsigned n
format_parts_lem sign n = elim (Bool-cases (n % decimal_scale == 0)) [
  | inl e ↦ unfold format_parts in rw e
  | inr e ↦ unfold format_parts in rw e (fraction_text sign n)
]

format_pos : (n : ℕ) → format_decimal (pos n) ≡ unsigned n
unfolding format_decimal
format_pos n =
    let e : n + 0 ≡ n = omega arith in
    let f : ltb (n + 0) 0 ≡ false = ground arith in rw f (rw e (format_parts_lem [] n))

format_negsuc : (n : ℕ) → format_decimal (negsuc n) ≡ b'-' ∷ unsigned (suc n)
unfolding format_decimal
format_negsuc n =
    let e : 0 + suc n ≡ suc n = omega arith in
    let f : ltb 0 (suc n) ≡ true = ground arith in
    rw e (rw f (format_parts_lem (b'-' ∷ []) (suc n)))

fraction_all : (n : ℕ) → all is_digit (fraction_digits n) ≡ true
fraction_all n =
    end_matches-all (λ c. c == b'0') is_digit (print_padded 6 (n % decimal_scale) [])
      (padded (n % decimal_scale) (omega arith)).1

-- The digits that the parser finds behind the point.
abbrev kept_fraction : ℕ → Text
kept_fraction n = if n % decimal_scale == 0 then [] else fraction_digits n

no_fraction : value_of 0 (pad_end 6 []) ≡ 0
unfolding value_of pad_end
no_fraction = refl

fraction_lem :
    (n : ℕ)
    → (all is_digit (kept_fraction n) ≡ true)
      × (length (kept_fraction n) ≤ 6)
      × (value_of 0 (pad_end 6 (kept_fraction n)) ≡ n % decimal_scale)
fraction_lem n =
    let digits = print_padded 6 (n % decimal_scale) [] in
    let (spelt, decimal, six) = padded (n % decimal_scale) (omega arith) in
    elim (Bool-cases (n % decimal_scale == 0)) [
      | inl e ↦ rw e (refl, omega arith, ground (arith, no_fraction))
      | inr e ↦ rw e (
        fraction_all n,
        omega (arith, end_matches-length (λ c. c == b'0') digits),
        rw (pad-end_matches 6 digits six) spelt,
      )
    ]

-- Where the parser finds the point in such a text.
trim_unsigned : (n : ℕ) → all is_decimal (unsigned n) ≡ true
trim_unsigned n = elim (Bool-cases (n % decimal_scale == 0)) [
  | inl e ↦ rw e (digits_decimal (whole_digits n) (all-digits (n / decimal_scale) []))
  | inr e ↦ rw e (
      rw
        (
          all-append is_decimal (whole_digits n) (b'.' ∷ fraction_digits n),
          digits_decimal (whole_digits n) (all-digits (n / decimal_scale) []),
        )
        (digits_decimal (fraction_digits n) (fraction_all n)))
]

split_unsigned : (n : ℕ) → split_point (unsigned n) ≡ (whole_digits n, kept_fraction n)
split_unsigned n = elim (Bool-cases (n % decimal_scale == 0)) [
  | inl e ↦ rw e (split_whole (whole_digits n) (all-digits (n / decimal_scale) []))
  | inr e ↦
      rw e (split-digits (whole_digits n) (fraction_digits n) (all-digits (n / decimal_scale) []))
]

split_signed : (n : ℕ) → split_point (b'-' ∷ unsigned n) ≡ (b'-' ∷ whole_digits n, kept_fraction n)
unfolding split_point
split_signed n = rw (split_unsigned n)

read_unsigned :
    (label column : String) (n : ℕ)
    → n ≤ i64_max
    → parse_decimal (unsigned n) label column ≡ ok (pos n)
unfolding value_of
read_unsigned label column n bound =
    let (decimal, short, spelt) = fraction_lem n in
    let e : n / decimal_scale * decimal_scale + n % decimal_scale ≡ n = omega arith in
    rw e at (
      parse_unsigned label column (unsigned n) (whole_digits n) (kept_fraction n)
        (n / decimal_scale) (n % decimal_scale) (all-digits (n / decimal_scale) [])
        (digits_nonempty (n / decimal_scale) []) decimal short (value-digits (n / decimal_scale) [])
        spelt (omega arith) (rw (trim_decimal (unsigned n) (trim_unsigned n)) (split_unsigned n))
        (omega arith))

read_signed :
    (label column : String) (n : ℕ)
    → n ≤ suc i64_max
    → parse_decimal (b'-' ∷ unsigned n) label column ≡ ok (sub_ℕ 0 n)
unfolding value_of
read_signed label column n bound =
    let (decimal, short, spelt) = fraction_lem n in
    let e : n / decimal_scale * decimal_scale + n % decimal_scale ≡ n = omega arith in
    rw e at (
      parse_signed label column (b'-' ∷ unsigned n) (whole_digits n) (kept_fraction n)
        (n / decimal_scale) (n % decimal_scale) (all-digits (n / decimal_scale) [])
        (digits_nonempty (n / decimal_scale) []) decimal short (value-digits (n / decimal_scale) [])
        spelt (omega arith)
        (rw (trim_decimal (b'-' ∷ unsigned n) (trim_unsigned n)) (split_signed n)) (omega arith))

-- Every `i64` amount, down to the least one, is read back from its decimal text.
pub parse_decimal-format_decimal :
    (v : ℤ) (label column : String) → IsI64 v → parse_decimal (format_decimal v) label column ≡ ok v
parse_decimal-format_decimal (pos n) label column h =
    rw (format_pos n) (read_unsigned label column n (omega arith))
parse_decimal-format_decimal (negsuc n) label column h =
    let e : sub_ℕ 0 (suc n) ≡ negsuc n = ground arith in
    rw (format_negsuc n) (read_signed label column (suc n) (omega arith) ∙ ap ok e)
