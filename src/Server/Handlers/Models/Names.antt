-- ===== src/Server/Handlers/Models/Names.antt =====
-- src/server.rs, `list_relay_models`: dropping the neighbours that are equal from the sorted names.
use local_api_relay.Common.{
  Bool, true, false, not, ◌&&◌, List, [], ◌∷◌, map, keep, any, All, arith, ◌≡◌, refl, subst,
  Bool-cases, inl, inr, ◌∙◌, any-keep, any-map, keep-All,
}
use local_api_relay.Common.Text.{Text, text_eq, text_eq_iff}
use local_api_relay.Store.Order.{
  text_ltb, text_ltb_asym, text_ltb_trans, text_ltb_total, Ordered, sort_by, sort_by-Ordered,
  any-sort_by,
}
use local_api_relay.Store.Routing.Listing.{EligibleModelRoute, listed_after}
use local_api_relay.Store.Validation.{dedup}

-- Each text is below the next.
abbrev pub is_ascending : List Text → Bool
is_ascending [] = true
is_ascending (x ∷ []) = true
is_ascending (x ∷ y ∷ ys) = text_ltb x y && is_ascending (y ∷ ys)

-- No text is below the one before it.
abbrev pub is_level : List Text → Bool
is_level [] = true
is_level (x ∷ []) = true
is_level (x ∷ y ∷ ys) = not (text_ltb y x) && is_level (y ∷ ys)

pub any-dedup : (a : Text) (xs : List Text) → any (text_eq a) (dedup xs) ≡ any (text_eq a) xs
unfolding dedup
any-dedup a [] = refl
any-dedup a (x ∷ []) = refl
any-dedup a (x ∷ y ∷ ys) =
    ground (arith, any-dedup a (y ∷ ys), text_eq_iff x y, text_eq_iff a x, text_eq_iff a y)

-- A text below the first one is below the first one that stays.
dedup-head :
    (a x : Text) (xs : List Text)
    → text_ltb a x ≡ true
    → is_ascending (dedup (x ∷ xs)) ≡ true
    → is_ascending (a ∷ dedup (x ∷ xs)) ≡ true
unfolding dedup
dedup-head a x [] h k = ground arith
dedup-head a x (y ∷ ys) h k = elim (Bool-cases (text_eq x y)) [
  | inl same ↦
      let e : x ≡ y = (text_eq_iff x y).0 same in
      rw same (dedup-head a y ys (subst (λ z. text_ltb a z ≡ true) e h) (ground arith))
  | inr other ↦ rw other (ground arith)
]

pub dedup-ascending : (xs : List Text) → is_level xs ≡ true → is_ascending (dedup xs) ≡ true
unfolding dedup
dedup-ascending [] h = refl
dedup-ascending (x ∷ []) h = refl
dedup-ascending (x ∷ y ∷ ys) h = elim (Bool-cases (text_eq x y)) [
  | inl same ↦ rw same (dedup-ascending (y ∷ ys) (ground arith))
  | inr other ↦ rw other (
      dedup-head x y ys (ground (arith, text_ltb_total x y))
        (dedup-ascending (y ∷ ys) (ground arith)))
]

-- The rows come in the order of their names.
after_trans :
    (x y z : EligibleModelRoute)
    → listed_after x y ≡ false
    → listed_after y z ≡ false
    → listed_after x z ≡ false
unfolding listed_after
after_trans x y z h k = ground (
  arith,
  text_ltb_trans x.model_name y.model_name z.model_name,
  text_ltb_trans x.route_id y.route_id z.route_id,
  text_ltb_trans y.model_name z.model_name x.model_name,
  text_ltb_trans z.model_name x.model_name y.model_name,
)

after_asym : (x y : EligibleModelRoute) → listed_after x y ≡ true → listed_after y x ≡ false
unfolding listed_after
after_asym x y h =
    ground (arith, text_ltb_asym y.model_name x.model_name, text_ltb_asym y.route_id x.route_id)

abbrev pub name_of : EligibleModelRoute → Text
name_of route = route.model_name

level-cons :
    (x : EligibleModelRoute) (xs : List EligibleModelRoute)
    → All (λ y. listed_after x y ≡ false) xs
    → is_level (map name_of xs) ≡ true
    → is_level (map name_of (x ∷ xs)) ≡ true
unfolding listed_after
level-cons x [] h k = refl
level-cons x (y ∷ ys) (hy, h) k = ground arith

level-keep :
    (p : EligibleModelRoute → Bool) (xs : List EligibleModelRoute)
    → Ordered listed_after xs
    → is_level (map name_of (keep p xs)) ≡ true
level-keep p [] h = refl
level-keep p (x ∷ xs) (hx, h) = elim (Bool-cases (p x)) [
  | inl kept ↦ rw kept (
      level-cons x (keep p xs) (keep-All (λ y. listed_after x y ≡ false) p xs hx)
        (level-keep p xs h))
  | inr dropped ↦ rw dropped (level-keep p xs h)
]

pub names-ascending :
    (p : EligibleModelRoute → Bool) (xs : List EligibleModelRoute)
    → is_ascending (dedup (map name_of (keep p (sort_by listed_after xs)))) ≡ true
names-ascending p xs = dedup-ascending (map name_of (keep p (sort_by listed_after xs))) (
    level-keep p (sort_by listed_after xs) (sort_by-Ordered listed_after after_asym after_trans xs))

-- A name is there when a row that is kept has it.
pub any-names :
    (a : Text) (p : EligibleModelRoute → Bool) (xs : List EligibleModelRoute)
    → any (text_eq a) (dedup (map name_of (keep p (sort_by listed_after xs))))
      ≡ any (λ x. p x && text_eq a (name_of x)) xs
any-names a p xs =
    any-dedup a (map name_of (keep p (sort_by listed_after xs)))
    ∙ any-map (text_eq a) name_of (keep p (sort_by listed_after xs))
    ∙ any-keep (λ x. text_eq a (name_of x)) p (sort_by listed_after xs)
    ∙ any-sort_by listed_after (λ x. p x && text_eq a (name_of x)) xs
