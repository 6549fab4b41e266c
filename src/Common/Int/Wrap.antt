-- ===== src/Common/Int/Wrap.antt =====
-- `i64` sums that wrap around more than once.
use local_api_relay.Common.{ℕ, ◌+◌, ◌-◌, ◌*◌, ◌/◌, ◌%◌, ◌^◌, arith, ◌≡◌, ltb, Bool-cases, inl, inr}
use local_api_relay.Common.Int.{
  ℤ, pos, negsuc, wrap_i64, wrap_i64-IsI64, bits64, ◌+ℤ◌, add_i64, pos_part, neg_part, int_laws,
}

record Congruent (x y : ℤ) : Type 0 where
  up : ℕ
  down : ℕ
  shifted : pos_part x + neg_part y + up * 2 ^ 64 ≡ pos_part y + neg_part x + down * 2 ^ 64

wrap_i64-Congruent : (x : ℤ) → Congruent (wrap_i64 x) x
unfolding wrap_i64 bits64
wrap_i64-Congruent (pos n) = elim (Bool-cases (ltb (n % 2 ^ 64) (2 ^ 63))) [
  | inl small ↦ rw small (record { up = n / 2 ^ 64; down = 0; shifted = omega arith })
  | inr large ↦ rw large (record { up = n / 2 ^ 64 + 1; down = 0; shifted = omega arith })
]
wrap_i64-Congruent (negsuc n) = elim (Bool-cases (ltb (2 ^ 64 - 1 - n % 2 ^ 64) (2 ^ 63))) [
  | inl small ↦ rw small (record { up = 0; down = n / 2 ^ 64 + 1; shifted = omega arith })
  | inr large ↦ rw large (record { up = 0; down = n / 2 ^ 64; shifted = omega arith })
]

-- A sum that has wrapped may be wrapped again after the next summand only.
pub add_i64-wrap_i64 : (a b : ℤ) → add_i64 (wrap_i64 a) b ≡ wrap_i64 (a +ℤ b)
unfolding add_i64
add_i64-wrap_i64 a b =
    let c = wrap_i64-Congruent a in
    let l = wrap_i64-Congruent (wrap_i64 a +ℤ b) in
    let r = wrap_i64-Congruent (a +ℤ b) in
    omega (
      int_laws,
      c.shifted,
      l.shifted,
      r.shifted,
      wrap_i64-IsI64 (wrap_i64 a +ℤ b),
      wrap_i64-IsI64 (a +ℤ b),
    )
