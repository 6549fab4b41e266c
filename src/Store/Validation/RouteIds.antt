-- ===== src/Store/Validation/RouteIds.antt =====
-- src/store.rs, `valid_eligible_model_route_ids`: the test for duplicates.
use local_api_relay.Common.{
  ◌≤◌, true, false, List, [], ◌∷◌, length, All, Bool-cases, arith, ◌≡◌, ◌≢◌, ◌↔◌, inl, inr, refl,
  sym, ◌∙◌, ap, subst, count_where,
}
use local_api_relay.Common.Text.{Text, text_eq, text_eq_iff, text_eq_refl}
use local_api_relay.Store.{ok}
use local_api_relay.Store.Order.{
  text_ltb, text_ltb_asym, text_ltb_trans, text_ltb_total, by_text, Ordered, count_where-sort_by,
  length-sort_by, sort_by-Ordered,
}
use local_api_relay.Store.Validation.{sort, dedup, valid_eligible_model_route_ids}

-- No text occurs twice.
abbrev pub Distinct : List Text → Type 0
Distinct ids = (x : Text) → count_where (text_eq x) ids ≤ 1

length-dedup : (x : Text) (xs : List Text) → length (dedup (x ∷ xs)) ≤ length (x ∷ xs)
unfolding dedup
length-dedup x [] = omega arith
length-dedup x (y ∷ ys) = ground (arith, length-dedup y ys)

-- In order, a text below the first one is nowhere in the list.
none_equal :
    (a b : Text) (xs : List Text)
    → text_ltb a b ≡ true
    → All (λ z. text_ltb z b ≡ false) xs
    → count_where (text_eq a) xs ≡ 0
unfolding count_where
none_equal a b [] below h = refl
none_equal a b (z ∷ xs) below (hz, h) = elim (Bool-cases (text_eq a z)) [
  | inl same ↦ absurd (cc ((text_eq_iff a z).0 same))
  | inr other ↦ rw other (none_equal a b xs below h)
]

below_of : (a b : Text) → text_ltb b a ≡ false → text_eq a b ≡ false → text_ltb a b ≡ true
below_of a b above differ = elim (Bool-cases (text_ltb a b)) [
  | inl below ↦ below
  | inr level ↦ absurd (cc (text_ltb_total a b level above))
]

-- Where removing the neighbours that are equal removes nothing, an ordered list has no duplicate.
dedup_full :
    (xs : List Text)
    → Ordered (by_text (λ (x : Text). x)) xs
    → length (dedup xs) ≡ length xs
    → Distinct xs
unfolding dedup count_where
dedup_full [] o e x = omega arith
dedup_full (a ∷ []) o e x = ground arith
dedup_full (a ∷ b ∷ xs) ((ab, ho), (hb, o)) e x =
    let differ : text_eq a b ≡ false = ground (arith, length-dedup b xs) in
    let rest : count_where (text_eq x) (b ∷ xs) ≤ 1 =
      dedup_full (b ∷ xs) (hb, o) (ground arith) x in
    let none : count_where (text_eq a) xs ≡ 0 = none_equal a b xs (below_of a b ab differ) hb in
    elim (Bool-cases (text_eq x a)) [
      | inl same ↦
          let e : a ≡ x = sym ((text_eq_iff x a).0 same) in
          let once : count_where (text_eq x) xs ≡ 0 =
            subst (λ z. count_where (text_eq z) xs ≡ 0) e none in
          let other : text_eq x b ≡ false = subst (λ z. text_eq z b ≡ false) e differ in
          rw same (rw other (rw once (omega arith)))
      | inr other ↦ rw other rest
    ]

dedup-Distinct : (xs : List Text) → Distinct xs → dedup xs ≡ xs
unfolding dedup count_where
dedup-Distinct [] h = refl
dedup-Distinct (a ∷ []) h = refl
dedup-Distinct (a ∷ b ∷ xs) h =
    let shorter : Distinct (b ∷ xs) = λ x. ground (arith, h x) in
    ground (arith, h a, text_eq_refl a, dedup-Distinct (b ∷ xs) shorter)

accepted :
    (ids : List Text)
    → length ids ≢ 0
    → Distinct ids
    → valid_eligible_model_route_ids ids ≡ ok (sort ids)
unfolding valid_eligible_model_route_ids
accepted ids some_id h =
    let sorted : Distinct (sort ids) =
      λ x. omega (arith, h x, count_where-sort_by (by_text (λ (x : Text). x)) (text_eq x) ids) in
    rw (dedup-Distinct (sort ids) sorted)
      (ground (arith, length-sort_by (by_text (λ (x : Text). x)) ids))

refused :
    (ids out : List Text)
    → valid_eligible_model_route_ids ids ≡ ok out
    → (length ids ≢ 0) × (length (dedup (sort ids)) ≡ length ids)
unfolding valid_eligible_model_route_ids
refused ids out e = (λ none. ground arith, ground arith)

-- The validation of a key's routes accepts exactly the nonempty lists in which no id occurs twice,
-- and answers with the sorted list.
pub valid_ids_iff :
    (ids out : List Text)
    → (valid_eligible_model_route_ids ids ≡ ok out)
      ↔ ((length ids ≢ 0) × Distinct ids × (out ≡ sort ids))
valid_ids_iff ids out = (
  λ e.
      let (some_id, full) = refused ids out e in
      let order = by_text (λ (x : Text). x) in
      let distinct : Distinct (sort ids) =
        dedup_full (sort ids) (sort_by-Ordered order (λ x y. text_ltb_asym y x) text_ltb_trans ids)
          (full ∙ sym (length-sort_by order ids)) in
      let original : Distinct ids =
        λ x. omega (arith, distinct x, count_where-sort_by order (text_eq x) ids) in
      (some_id, original, cc (accepted ids some_id original)),
  λ h. accepted ids h.0 h.1 ∙ ap ok (sym h.2),
)
