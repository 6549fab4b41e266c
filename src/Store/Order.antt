-- ===== src/Store/Order.antt =====
-- `ORDER BY` as a stable insertion sort: `after x y` says that the row `x` comes after the row `y`.
use local_api_relay.Common.{
  any, any_count, ap, sym, ◌∙◌, ◌+◌, Bool, true, false, List, [], ◌∷◌, if◌then◌else◌, All, arith,
  ◌≡◌, refl, count_where, length, Bool-cases, inl, inr, ltb, ◌==◌, ◌&&◌, ◌||◌,
}
use local_api_relay.Common.Text.{Text, text_eq}

-- The order of SQLite's BINARY collation and of `str`, which on UTF-8 is that of the scalar values.
unfoldable pub text_ltb : Text → Text → Bool
text_ltb s [] = false
text_ltb [] (b ∷ t) = true
text_ltb (a ∷ s) (b ∷ t) = ltb a b || (a == b && text_ltb s t)

module _ {ℓ} {A : Type ℓ} (after : A → A → Bool) where
  unfoldable pub insert_by : A → List A → List A
  insert_by x [] = x ∷ []
  insert_by x (y ∷ ys) = let rest = insert_by x ys in if after x y then y ∷ rest else x ∷ y ∷ ys

  unfoldable pub sort_by : List A → List A
  unfolding insert_by
  sort_by [] = []
  sort_by (x ∷ xs) = insert_by x (sort_by xs)

  -- Sorting keeps the rows, and how often each occurs.
  count_where-insert_by :
      (p : A → Bool) (x : A) (ys : List A) → count_where p (insert_by x ys) ≡ count_where p (x ∷ ys)
  unfolding insert_by count_where
  count_where-insert_by p x [] = refl
  count_where-insert_by p x (y ∷ ys) = ground (arith, count_where-insert_by p x ys)

  pub count_where-sort_by :
      (p : A → Bool) (xs : List A) → count_where p (sort_by xs) ≡ count_where p xs
  unfolding sort_by insert_by count_where
  count_where-sort_by p [] = refl
  count_where-sort_by p (x ∷ xs) =
      ground (arith, count_where-insert_by p x (sort_by xs), count_where-sort_by p xs)

  pub any-sort_by : (p : A → Bool) (xs : List A) → any p (sort_by xs) ≡ any p xs
  any-sort_by p xs =
      any_count p (sort_by xs) ∙ ap (ltb 0) (count_where-sort_by p xs) ∙ sym (any_count p xs)

  insert_by-All {κ} :
      (P : A → Type κ) (x : A) (ys : List A) → P x → All P ys → All P (insert_by x ys)
  unfolding insert_by
  insert_by-All P x [] px h = (px, tt)
  insert_by-All P x (y ∷ ys) px (py, h) = elim (Bool-cases (after x y)) [
    | inl e ↦ rw e (py, insert_by-All P x ys px h)
    | inr e ↦ rw e (px, (py, h))
  ]

  pub sort_by-All {κ} : (P : A → Type κ) (xs : List A) → All P xs → All P (sort_by xs)
  unfolding sort_by
  sort_by-All P [] h = tt
  sort_by-All P (x ∷ xs) (px, h) = insert_by-All P x (sort_by xs) px (sort_by-All P xs h)

  length-insert_by : (x : A) (ys : List A) → length (insert_by x ys) ≡ length ys + 1
  unfolding insert_by
  length-insert_by x [] = refl
  length-insert_by x (y ∷ ys) = ground (arith, length-insert_by x ys)

  pub length-sort_by : (xs : List A) → length (sort_by xs) ≡ length xs
  unfolding sort_by
  length-sort_by [] = refl
  length-sort_by (x ∷ xs) = omega (arith, length-insert_by x (sort_by xs), length-sort_by xs)

  -- No row comes after one that follows it.
  abbrev pub Ordered : List A → Type 0
  Ordered [] = Unit
  Ordered (x ∷ xs) = All (λ y. after x y ≡ false) xs × Ordered xs

  module _ (asym : (x y : A) → after x y ≡ true → after y x ≡ false)
      (trans : (x y z : A) → after x y ≡ false → after y z ≡ false → after x z ≡ false) where
    all_after :
        (x y : A) (ys : List A)
        → after x y ≡ false
        → All (λ z. after y z ≡ false) ys
        → All (λ z. after x z ≡ false) ys
    all_after x y [] e h = tt
    all_after x y (z ∷ ys) e (hz, h) = (trans x y z e hz, all_after x y ys e h)

    insert_by-Ordered : (x : A) (ys : List A) → Ordered ys → Ordered (insert_by x ys)
    unfolding insert_by
    insert_by-Ordered x [] h = (tt, tt)
    insert_by-Ordered x (y ∷ ys) (hy, h) = elim (Bool-cases (after x y)) [
      | inl e ↦
          rw e
            (insert_by-All (λ z. after y z ≡ false) x ys (asym x y e) hy, insert_by-Ordered x ys h)
      | inr e ↦ rw e ((e, all_after x y ys e hy), (hy, h))
    ]

    pub sort_by-Ordered : (xs : List A) → Ordered (sort_by xs)
    unfolding sort_by
    sort_by-Ordered [] = tt
    sort_by-Ordered (x ∷ xs) = insert_by-Ordered x (sort_by xs) (sort_by-Ordered xs)

pub text_ltb_asym : (s t : Text) → text_ltb s t ≡ true → text_ltb t s ≡ false
unfolding text_ltb
text_ltb_asym [] [] h = ground arith
text_ltb_asym [] (b ∷ t) h = ground arith
text_ltb_asym (a ∷ s) [] h = ground arith
text_ltb_asym (a ∷ s) (b ∷ t) h = ground (arith, text_ltb_asym s t)

-- `s <= t` and `t <= u` give `s <= u`.
pub text_ltb_trans :
    (s t u : Text) → text_ltb t s ≡ false → text_ltb u t ≡ false → text_ltb u s ≡ false
unfolding text_ltb
text_ltb_trans [] t [] h k = refl
text_ltb_trans [] t (c ∷ u) h k = refl
text_ltb_trans (a ∷ s) [] u h k = absurd (cc)
text_ltb_trans (a ∷ s) (b ∷ t) [] h k = absurd (cc)
text_ltb_trans (a ∷ s) (b ∷ t) (c ∷ u) h k = ground (arith, text_ltb_trans s t u)

-- Texts neither of which is below the other are equal.
pub text_ltb_total : (s t : Text) → text_ltb s t ≡ false → text_ltb t s ≡ false → text_eq s t ≡ true
unfolding text_ltb text_eq
text_ltb_total [] [] h k = refl
text_ltb_total [] (b ∷ t) h k = absurd (cc)
text_ltb_total (a ∷ s) [] h k = absurd (cc)
text_ltb_total (a ∷ s) (b ∷ t) h k = ground (arith, text_ltb_total s t)

pub text_ltb_irrefl : (s : Text) → text_ltb s s ≡ false
unfolding text_ltb
text_ltb_irrefl [] = refl
text_ltb_irrefl (a ∷ s) = ground (arith, text_ltb_irrefl s)

-- `ORDER BY` a column of texts.
abbrev pub by_text {ℓ} : {A : Type ℓ} → (A → Text) → A → A → Bool
by_text key a b = text_ltb (key b) (key a)
