-- ===== src/Server/Sse/Windows.antt =====
-- src/server.rs, `sse_event_end`: the end of an event does not move when more bytes come.
use local_api_relay.Common.{
  ℕ, zero, suc, ◌+◌, ◌≤◌, ◌<◌, Bool, true, Option, none, some, [], ◌∷◌, ◌++◌, length, arith, ◌≡◌,
  refl, ap, Option-cases, inl, inr,
}
use local_api_relay.Server.Sse.{
  Bytes, starts_with, shift, position, crlf_crlf, blank_line, earlier, sse_event_end, take,
  drop_first,
}

starts_with-append :
    (p bs more : Bytes) → starts_with p bs ≡ true → starts_with p (bs ++ more) ≡ true
unfolding starts_with
starts_with-append [] bs more h = refl
starts_with-append (a ∷ p) [] more h = ground arith
starts_with-append (a ∷ p) (b ∷ bs) more h = ground (arith, starts_with-append p bs more)

-- A pattern that fits into the bytes that are there is found in them or not at all.
starts_with-back :
    (p bs more : Bytes)
    → length p ≤ length bs
    → starts_with p (bs ++ more) ≡ true
    → starts_with p bs ≡ true
unfolding starts_with
starts_with-back [] bs more le h = refl
starts_with-back (a ∷ p) [] more le h = absurd (omega arith)
starts_with-back (a ∷ p) (b ∷ bs) more le h = ground (arith, starts_with-back p bs more)

starts_with-fits : (p bs : Bytes) → starts_with p bs ≡ true → length p ≤ length bs
unfolding starts_with
starts_with-fits [] bs h = omega arith
starts_with-fits (a ∷ p) [] h = ground arith
starts_with-fits (a ∷ p) (b ∷ bs) h = ground (arith, starts_with-fits p bs)

-- A test that looks at the next `n` bytes.
record IsWindow (n : ℕ) (test : Bytes → Bool) : Type 0 where
  pub positive : 0 < n
  pub fits : (bs : Bytes) → test bs ≡ true → n ≤ length bs
  pub grows : (bs more : Bytes) → test bs ≡ true → test (bs ++ more) ≡ true
  pub stays : (bs more : Bytes) → n ≤ length bs → test (bs ++ more) ≡ true → test bs ≡ true

crlf-IsWindow : IsWindow 4 crlf_crlf
crlf-IsWindow = record {
  positive = omega arith;
  fits = starts_with-fits _;
  grows = starts_with-append _;
  stays = starts_with-back _;
}

blank-IsWindow : IsWindow 2 blank_line
blank-IsWindow = record {
  positive = omega arith;
  fits = λ bs h.
      ground (arith, starts_with-fits (10 ∷ 10 ∷ []) bs, starts_with-fits (13 ∷ 13 ∷ []) bs);
  grows = λ bs more h.
      ground (
        arith,
        starts_with-append (10 ∷ 10 ∷ []) bs more,
        starts_with-append (13 ∷ 13 ∷ []) bs more,
      );
  stays = λ bs more le h.
      ground
        (arith, starts_with-back (10 ∷ 10 ∷ []) bs more, starts_with-back (13 ∷ 13 ∷ []) bs more);
}

module _ (n : ℕ) (test : Bytes → Bool) (w : IsWindow n test) where
  position-fits : (bs : Bytes) (k : ℕ) → position test bs ≡ some k → k + n ≤ length bs
  unfolding position
  position-fits [] k h = absurd (cc)
  position-fits (b ∷ bs) k h = elim (Option-cases (position test bs)) [
    | inl e ↦ ground (arith, w.fits (b ∷ bs))
    | inr (j, e) ↦ ground (arith, w.fits (b ∷ bs), position-fits bs j e)
  ]

  position-append :
      (bs more : Bytes) (k : ℕ) → position test bs ≡ some k → position test (bs ++ more) ≡ some k
  unfolding position
  position-append [] more k h = absurd (cc)
  position-append (b ∷ bs) more k h = elim (Option-cases (position test bs)) [
    | inl e ↦ ground (arith, w.grows (b ∷ bs) more)
    | inr (j, e) ↦ ground (
      arith,
      w.grows (b ∷ bs) more,
      w.stays (b ∷ bs) more,
      position-fits bs j e,
      position-append bs more j e,
    )
  ]

  position_late :
      (bs more : Bytes) (k : ℕ)
      → position test bs ≡ none
      → position test (bs ++ more) ≡ some k
      → length bs < k + n
  unfolding position
  position_late [] more k h e = omega (arith, w.positive)
  position_late (b ∷ bs) more k h e = elim (Option-cases (position test (bs ++ more))) [
    | inl x ↦ ground (arith, w.stays (b ∷ bs) more)
    | inr (j, x) ↦ ground (arith, w.stays (b ∷ bs) more, position_late bs more j)
  ]

-- What more bytes do to the first place of a window of `n` bytes among `len`.
data Grown (n len : ℕ) : Option ℕ → Option ℕ → Type 0 where
  here : (k : ℕ) → k + n ≤ len → Grown n len (some k) (some k)
  missing : Grown n len none none
  late : (k : ℕ) → len < k + n → Grown n len none (some k)

position-Grown :
    (n : ℕ) (test : Bytes → Bool)
    → IsWindow n test
    → (bs more : Bytes) → Grown n (length bs) (position test bs) (position test (bs ++ more))
position-Grown n test w bs more = elim (Option-cases (position test bs)) [
  | inr (k, e) ↦
      rw (e, position-append n test w bs more k e) (here k (position-fits n test w bs k e))
  | inl e ↦ elim (Option-cases (position test (bs ++ more))) [
    | inl x ↦ rw (e, x) missing
    | inr (k, x) ↦ rw (e, x) (late k (position_late n test w bs more k e x))
  ]
]

abbrev end_of : Option ℕ → Option ℕ → Option ℕ
end_of crlf short = earlier (shift 4 crlf) (shift 2 short)

end-Grown :
    (len n : ℕ) {c c' s s' : Option ℕ}
    → Grown 4 len c c'
    → Grown 2 len s s'
    → end_of c s ≡ some n
    → (end_of c' s' ≡ some n) × (n ≤ len) × (0 < n)
end-Grown len n (here i hi) (here j hj) e = ground arith
end-Grown len n (here i hi) missing e = ground arith
end-Grown len n (here i hi) (late j hj) e = ground arith
end-Grown len n missing (here j hj) e = ground arith
end-Grown len n missing missing e = absurd (cc)
end-Grown len n missing (late j hj) e = absurd (cc)
end-Grown len n (late i hi) (here j hj) e = ground arith
end-Grown len n (late i hi) missing e = absurd (cc)
end-Grown len n (late i hi) (late j hj) e = absurd (cc)

-- The end of an event stands once its bytes are there.
pub sse_event_end-append :
    (bs more : Bytes) (n : ℕ)
    → sse_event_end bs ≡ some n
    → (sse_event_end (bs ++ more) ≡ some n) × (n ≤ length bs) × (0 < n)
unfolding sse_event_end
sse_event_end-append bs more n h =
    end-Grown (length bs) n (position-Grown 4 crlf_crlf crlf-IsWindow bs more)
      (position-Grown 2 blank_line blank-IsWindow bs more) h

pub take-append : (n : ℕ) (bs more : Bytes) → n ≤ length bs → take n (bs ++ more) ≡ take n bs
unfolding take
take-append zero bs more h = refl
take-append (suc n) [] more h = absurd (omega arith)
take-append (suc n) (b ∷ bs) more h = ap (◌∷◌ b) (take-append n bs more (omega arith))

pub drop_first-append :
    (n : ℕ) (bs more : Bytes) → n ≤ length bs → drop_first n (bs ++ more) ≡ drop_first n bs ++ more
unfolding drop_first
drop_first-append zero bs more h = refl
drop_first-append (suc n) [] more h = absurd (omega arith)
drop_first-append (suc n) (b ∷ bs) more h = drop_first-append n bs more (omega arith)

pub drop_first-length :
    (n : ℕ) (bs : Bytes) → 0 < n → n ≤ length bs → length (drop_first n bs) < length bs
unfolding drop_first
drop_first-length zero bs p h = absurd (omega arith)
drop_first-length (suc zero) (b ∷ bs) p h = omega arith
drop_first-length (suc n) [] p h = absurd (omega arith)
drop_first-length (suc (suc n)) (b ∷ bs) p h =
    omega (arith, drop_first-length (suc n) bs (omega arith) (omega arith))
