-- ===== src/Common/Rows.antt =====
-- How lookups and counts of a table change as rows are added and replaced.
use Prim.Native.Nat.{◌+◌}
use mathlib.Core.Path.{◌≡◌, refl}
use mathlib.Core.Bool.{Bool, true, false, not, ◌&&◌}
use mathlib.Core.List.{List, [], ◌∷◌, ◌++◌, map}
use native.Mathlib.Omega.{arith}
use local_api_relay.Common.Tests.{if◌then◌else◌, is_some, ltb}
use local_api_relay.Common.Lists.{All, any, keep}
use local_api_relay.Common.Tables.{find_where, count_where, update_where, find_where-append}

module _ {ℓ} {A : Type ℓ} where
  pub count_where-append :
      (p : A → Bool) (xs ys : List A)
      → count_where p (xs ++ ys) ≡ count_where p xs + count_where p ys
  unfolding count_where
  count_where-append p [] ys = omega arith
  count_where-append p (x ∷ xs) ys = ground (arith, count_where-append p xs ys)

  pub All_imp {κ κ'} :
      {P : A → Type κ} {Q : A → Type κ'}
      → ((x : A) → P x → Q x)
      → (xs : List A) → All P xs
      → All Q xs
  All_imp f [] h = tt
  All_imp f (x ∷ xs) (hx, h) = (f x hx, All_imp f xs h)

  -- A lookup that finds a row still finds one behind which rows are added.
  pub found-append :
      (p : A → Bool) (xs ys : List A)
      → is_some (find_where p xs) ≡ true
      → is_some (find_where p (xs ++ ys)) ≡ true
  found-append p xs ys h = ground (arith, find_where-append p xs ys)

  -- So it does after an update that keeps the key.
  pub found-update :
      (q p : A → Bool) (f : A → A)
      → ((x : A) → p x ≡ true → q (f x) ≡ q x)
      → (xs : List A) → is_some (find_where q (update_where p f xs)) ≡ is_some (find_where q xs)
  unfolding find_where update_where
  found-update q p f same [] = refl
  found-update q p f same (x ∷ xs) = ground (arith, same x, found-update q p f same xs)

  -- How many rows fit after the rows of a key have become one value.
  pub count-replaced :
      (q p : A → Bool) (y : A) (xs : List A)
      → count_where q (update_where p (λ x. y) xs)
        ≡ count_where (λ x. q x && not (p x)) xs + (if q y then count_where p xs else 0)
  unfolding count_where update_where
  count-replaced q p y [] = ground arith
  count-replaced q p y (x ∷ xs) = ground (arith, count-replaced q p y xs)

  pub count_where-same :
      (p q : A → Bool) → ((x : A) → p x ≡ q x) → (xs : List A) → count_where p xs ≡ count_where q xs
  unfolding count_where
  count_where-same p q same [] = refl
  count_where-same p q same (x ∷ xs) = ground (arith, same x, count_where-same p q same xs)

  pub count_missing :
      (p : A → Bool) (xs : List A) → is_some (find_where p xs) ≡ false → count_where p xs ≡ 0
  unfolding find_where count_where
  count_missing p [] h = refl
  count_missing p (x ∷ xs) h = ground (arith, count_missing p xs)

  pub any_count : (p : A → Bool) (xs : List A) → any p xs ≡ ltb 0 (count_where p xs)
  unfolding count_where
  any_count p [] = refl
  any_count p (x ∷ xs) = ground (arith, any_count p xs)

  pub any-keep : (q p : A → Bool) (xs : List A) → any q (keep p xs) ≡ any (λ x. p x && q x) xs
  any-keep q p [] = refl
  any-keep q p (x ∷ xs) = ground (arith, any-keep q p xs)

  pub any-map {κ} :
      {B : Type κ} (q : B → Bool) (f : A → B) (xs : List A)
      → any q (map f xs) ≡ any (λ x. q (f x)) xs
  any-map q f [] = refl
  any-map q f (x ∷ xs) = ground (arith, any-map q f xs)

  pub keep-All {κ} : (P : A → Type κ) (p : A → Bool) (xs : List A) → All P xs → All P (keep p xs)
  keep-All P p [] h = tt
  keep-All P p (x ∷ xs) (hx, h) = ground (arith, keep-All P p xs h)
