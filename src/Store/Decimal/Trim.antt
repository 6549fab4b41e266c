-- ===== src/Store/Decimal/Trim.antt =====
-- The `str` methods that `parse_decimal` and `format_decimal` use, on digits, signs and points.
use mathlib.Core.List.{reverse, reverse-append, reverse-reverse, reverse-cons}
use local_api_relay.Common.{
  ℕ, zero, suc, ◌≤◌, Bool, true, false, not, ◌&&◌, ◌||◌, [], ◌∷◌, ◌++◌, append_assoc, length, all,
  ◌==◌, if◌then◌else◌, arith, ◌≡◌, refl,
}
use local_api_relay.Common.Text.{
  Text, is_empty, is_whitespace, trim, trim_start_matches, trim_end_matches, byte_len,
}
use local_api_relay.Store.Decimal.{is_digit, split_point, pad_end}

module _ (p : ℕ → Bool) where
  -- Trimming stops at the first character that the test refuses.
  start_matches-append :
      (c : ℕ) (xs ys : Text)
      → p c ≡ false
      → trim_start_matches p (xs ++ c ∷ ys) ≡ trim_start_matches p xs ++ c ∷ ys
  unfolding trim_start_matches
  start_matches-append c [] ys e = rw e
  start_matches-append c (x ∷ xs) ys e = ground (arith, start_matches-append c xs ys)

  pub end_matches-append :
      (c : ℕ) (xs ys : Text)
      → p c ≡ false
      → trim_end_matches p (xs ++ c ∷ ys) ≡ xs ++ c ∷ trim_end_matches p ys
  unfolding trim_end_matches
  end_matches-append c xs ys e = simp (
    reverse-append,
    reverse-cons,
    reverse-reverse,
    append_assoc,
    start_matches-append c (reverse ys) (reverse xs) e,
  )

  -- `trim_end_matches` by recursion from the front.
  start_matches_split :
      (xs ys : Text)
      → trim_start_matches p (xs ++ ys) ≡ (
          if is_empty (trim_start_matches p xs)
          then trim_start_matches p ys
          else trim_start_matches p xs ++ ys)
  unfolding trim_start_matches
  start_matches_split [] ys = refl
  start_matches_split (x ∷ xs) ys = ground (arith, start_matches_split xs ys)

  is_empty-append : (xs : Text) (c : ℕ) → is_empty (xs ++ c ∷ []) ≡ false
  is_empty-append [] c = refl
  is_empty-append (x ∷ xs) c = refl

  reverse_kept :
      (c : ℕ) (kept : Text)
      → reverse (if is_empty kept then trim_start_matches p (c ∷ []) else kept ++ c ∷ [])
        ≡ (if is_empty (reverse kept) && p c then [] else c ∷ reverse kept)
  unfolding trim_start_matches
  reverse_kept c [] = ground arith
  reverse_kept c (x ∷ kept) = rw (reverse-append, reverse-cons, is_empty-append (reverse kept) x)

  pub end_matches-cons :
      (c : ℕ) (s : Text)
      → trim_end_matches p (c ∷ s)
        ≡ (if is_empty (trim_end_matches p s) && p c then [] else c ∷ trim_end_matches p s)
  unfolding trim_end_matches
  end_matches-cons c s =
      rw (reverse-cons, start_matches_split (reverse s) (c ∷ []))
        (reverse_kept c (trim_start_matches p (reverse s)))

  end_matches_nil : trim_end_matches p [] ≡ []
  unfolding trim_end_matches trim_start_matches
  end_matches_nil = refl

  -- Trimmed at the end, a text of some class of characters still is one, and no longer.
  pub end_matches-all :
      (q : ℕ → Bool) (s : Text) → all q s ≡ true → all q (trim_end_matches p s) ≡ true
  end_matches-all q [] h = rw end_matches_nil
  end_matches-all q (c ∷ s) h = ground (arith, end_matches-cons c s, end_matches-all q s)

  pub end_matches-length : (s : Text) → length (trim_end_matches p s) ≤ length s
  end_matches-length [] = rw end_matches_nil (omega arith)
  end_matches-length (c ∷ s) = ground (arith, end_matches-cons c s, end_matches-length s)

  -- A text none of whose characters is trimmed.
  start_matches_none : (s : Text) → all (λ c. not (p c)) s ≡ true → trim_start_matches p s ≡ s
  unfolding trim_start_matches
  start_matches_none [] h = refl
  start_matches_none (c ∷ s) h = ground arith

  end_matches_none : (s : Text) → all (λ c. not (p c)) s ≡ true → trim_end_matches p s ≡ s
  end_matches_none [] h = end_matches_nil
  end_matches_none (c ∷ s) h = ground (arith, end_matches-cons c s, end_matches_none s)

  trim_none :
      (s : Text) → all (λ c. not (p c)) s ≡ true → trim_end_matches p (trim_start_matches p s) ≡ s
  trim_none s h = rw (start_matches_none s h) (end_matches_none s h)

-- The characters that `format_decimal` writes.
abbrev pub is_decimal : ℕ → Bool
is_decimal c = is_digit c || c == b'.' || c == b'-'

not_whitespace : (c : ℕ) → is_decimal c ≡ true → is_whitespace c ≡ false
unfolding is_whitespace
not_whitespace c h = ground arith

all_imp :
    (p q : ℕ → Bool)
    → ((c : ℕ) → p c ≡ true → q c ≡ true)
    → (s : Text) → all p s ≡ true
    → all q s ≡ true
all_imp p q sub [] h = refl
all_imp p q sub (c ∷ s) h = ground (arith, sub c, all_imp p q sub s)

pub all-append : (p : ℕ → Bool) (s t : Text) → all p (s ++ t) ≡ (all p s && all p t)
all-append p [] t = refl
all-append p (c ∷ s) t = ground (arith, all-append p s t)

pub digits_decimal : (s : Text) → all is_digit s ≡ true → all is_decimal s ≡ true
digits_decimal s h = all_imp is_digit is_decimal (λ c e. ground arith) s h

pub trim_decimal : (s : Text) → all is_decimal s ≡ true → trim s ≡ s
unfolding trim
trim_decimal s h =
    trim_none is_whitespace s (
      all_imp is_decimal (λ c. not (is_whitespace c)) (λ c e. ground (arith, not_whitespace c)) s h)

-- The zeros that were trimmed are the ones that the parser puts back.
pub pad-end_matches :
    (k : ℕ) (s : Text) → length s ≡ k → pad_end k (trim_end_matches (λ c. c == b'0') s) ≡ s
unfolding pad_end
pad-end_matches zero [] h = end_matches_nil (λ c. c == b'0')
pad-end_matches zero (c ∷ s) h = absurd (omega arith)
pad-end_matches (suc k) [] h = absurd (omega arith)
pad-end_matches (suc k) (c ∷ s) h =
    ground (arith, end_matches-cons (λ c. c == b'0') c s, pad-end_matches k s)

pub split-digits : (s t : Text) → all is_digit s ≡ true → split_point (s ++ b'.' ∷ t) ≡ (s, t)
unfolding split_point
split-digits [] t h = refl
split-digits (c ∷ s) t h = ground (arith, split-digits s t)

pub split_whole : (s : Text) → all is_digit s ≡ true → split_point s ≡ (s, [])
unfolding split_point
split_whole [] h = refl
split_whole (c ∷ s) h = ground (arith, split_whole s)

pub byte_len-digits : (s : Text) → all is_digit s ≡ true → byte_len s ≡ length s
unfolding byte_len
byte_len-digits [] h = refl
byte_len-digits (c ∷ s) h = ground (arith, byte_len-digits s)
