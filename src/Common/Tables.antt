-- ===== src/Common/Tables.antt =====
-- A table as the list of its rows, with the statements that the store runs against it.
-- `UPDATE … SET f WHERE p` is `update_where p f`, whose number of changed rows is `count_where p`.
use Prim.Native.Nat.{ℕ, suc, ◌≤◌, ◌<◌}
use mathlib.Core.Path.{◌≡◌, refl}
use mathlib.Core.Bool.{Bool, true, false}
use mathlib.Core.List.{List, [], ◌∷◌, ◌++◌}
use mathlib.Core.Option
use mathlib.Core.Option.{Option, none, some}
use native.Mathlib.Omega.{arith}
use local_api_relay.Common.Tests.{if◌then◌else◌}
use local_api_relay.Common.Lists.{All}

module _ {ℓ} {A : Type ℓ} where
  unfoldable pub update_where : (A → Bool) → (A → A) → List A → List A
  update_where p f [] = []
  update_where p f (x ∷ xs) = (if p x then f x else x) ∷ update_where p f xs

  unfoldable pub count_where : (A → Bool) → List A → ℕ
  count_where p [] = 0
  count_where p (x ∷ xs) = if p x then suc (count_where p xs) else count_where p xs

  unfoldable pub find_where : (A → Bool) → List A → Option A
  find_where p [] = none
  find_where p (x ∷ xs) = if p x then some x else find_where p xs

  unfoldable pub delete_where : (A → Bool) → List A → List A
  delete_where p [] = []
  delete_where p (x ∷ xs) = if p x then delete_where p xs else x ∷ delete_where p xs

  -- What each row keeps under the update, the table keeps.
  pub update_where-All {κ} :
      (P : A → Type κ) (p : A → Bool) (f : A → A)
      → ((x : A) → P x → p x ≡ true → P (f x))
      → (xs : List A) → All P xs
      → All P (update_where p f xs)
  unfolding update_where
  update_where-All P p f keep [] h = tt
  update_where-All P p f keep (x ∷ xs) (hx, hxs) =
      (ground (arith, keep x hx), update_where-All P p f keep xs hxs)

  -- An update that changes no row that is looked for is not seen.
  pub find_where-update_ne :
      (q p : A → Bool) (f : A → A)
      → ((x : A) → p x ≡ true → q x ≡ false)
      → ((x : A) → p x ≡ true → q (f x) ≡ false)
      → (xs : List A) → find_where q (update_where p f xs) ≡ find_where q xs
  unfolding find_where update_where
  find_where-update_ne q p f before after [] = refl
  find_where-update_ne q p f before after (x ∷ xs) =
      ground (arith, before x, after x, find_where-update_ne q p f before after xs)

  -- No match, no change.
  pub update_where-none :
      (p : A → Bool) (f : A → A) (xs : List A) → find_where p xs ≡ none → update_where p f xs ≡ xs
  unfolding find_where update_where
  update_where-none p f [] h = refl
  update_where-none p f (x ∷ xs) h = ground (arith, update_where-none p f xs)

  pub count_where-none :
      (p : A → Bool) (xs : List A) → find_where p xs ≡ none → count_where p xs ≡ 0
  unfolding find_where count_where
  count_where-none p [] h = refl
  count_where-none p (x ∷ xs) h = ground (arith, count_where-none p xs)

  -- `Option::or`
  abbrev pub or_else : Option A → Option A → Option A
  or_else none b = b
  or_else (some a) b = some a

  pub find_where-append :
      (p : A → Bool) (xs ys : List A)
      → find_where p (xs ++ ys) ≡ or_else (find_where p xs) (find_where p ys)
  unfolding find_where
  find_where-append p [] ys = refl
  find_where-append p (x ∷ xs) ys = ground (arith, find_where-append p xs ys)

  pub find_where_sound :
      (p : A → Bool) (xs : List A) (x : A) → find_where p xs ≡ some x → p x ≡ true
  unfolding find_where
  find_where_sound p [] x h = ground arith
  find_where_sound p (y ∷ ys) x h = ground (arith, find_where_sound p ys x)

  pub find_where-All {κ} :
      (P : A → Type κ) (p : A → Bool) (xs : List A) (x : A)
      → All P xs
      → find_where p xs ≡ some x
      → P x
  unfolding find_where
  find_where-All P p [] x h e = absurd (cc)
  find_where-All P p (y ∷ ys) x (hy, hys) e = ground (arith, find_where-All P p ys x hys)

  -- A lookup after an update finds the row that it found before, updated if the update hit it.
  pub find_where-update :
      (q p : A → Bool) (f : A → A)
      → ((x : A) → p x ≡ true → q (f x) ≡ q x)
      → (xs : List A)
      → find_where q (update_where p f xs)
        ≡ Option.map (λ x. if p x then f x else x) (find_where q xs)
  unfolding find_where update_where
  find_where-update q p f same [] = refl
  find_where-update q p f same (x ∷ xs) = ground (arith, same x, find_where-update q p f same xs)

  pub count_where-update :
      (q p : A → Bool) (f : A → A)
      → ((x : A) → p x ≡ true → q (f x) ≡ q x)
      → (xs : List A) → count_where q (update_where p f xs) ≡ count_where q xs
  unfolding count_where update_where
  count_where-update q p f same [] = refl
  count_where-update q p f same (x ∷ xs) = ground (arith, same x, count_where-update q p f same xs)

  pub count_where-le :
      (p q : A → Bool)
      → ((x : A) → p x ≡ true → q x ≡ true)
      → (xs : List A) → count_where p xs ≤ count_where q xs
  unfolding count_where
  count_where-le p q sub [] = omega arith
  count_where-le p q sub (x ∷ xs) = ground (arith, sub x, count_where-le p q sub xs)

  pub count_where_pos :
      (p q : A → Bool) (xs : List A) (x : A)
      → find_where q xs ≡ some x
      → p x ≡ true
      → 0 < count_where p xs
  unfolding count_where find_where
  count_where_pos p q [] x h e = absurd (cc)
  count_where_pos p q (y ∷ ys) x h e = ground (arith, count_where_pos p q ys x)

  -- Where a key is unique, a test that its row fails finds nothing among the rows of that key.
  count_where_zero : (q : A → Bool) (xs : List A) → count_where q xs ≤ 0 → find_where q xs ≡ none
  unfolding find_where count_where
  count_where_zero q [] h = refl
  count_where_zero q (x ∷ xs) h = ground (arith, count_where_zero q xs)

  find_where_sub :
      (p q : A → Bool)
      → ((x : A) → p x ≡ true → q x ≡ true)
      → (xs : List A) → find_where q xs ≡ none
      → find_where p xs ≡ none
  unfolding find_where
  find_where_sub p q sub [] h = refl
  find_where_sub p q sub (x ∷ xs) h = ground (arith, sub x, find_where_sub p q sub xs)

  pub find_where_unique :
      (p q : A → Bool)
      → ((x : A) → p x ≡ true → q x ≡ true)
      → (xs : List A) (h : A) → find_where q xs ≡ some h
      → p h ≡ false
      → count_where q xs ≤ 1
      → find_where p xs ≡ none
  unfolding find_where count_where
  find_where_unique p q sub [] h e f c = refl
  find_where_unique p q sub (x ∷ xs) h e f c = ground (
    arith,
    sub x,
    find_where_unique p q sub xs h,
    find_where_sub p q sub xs,
    count_where_zero q xs,
  )

  pub find_where-one :
      (p : A → Bool) (x : A) → find_where p (x ∷ []) ≡ (if p x then some x else none)
  unfolding find_where
  find_where-one p x = refl
