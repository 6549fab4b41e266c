-- ===== src/Store/Routing/Candidates.antt =====
-- src/store.rs: which routes the queries for a call return, and in what order.
use local_api_relay.Common.{
  length, is_some, ltb, ◌∙◌, ◌==◌, ◌||◌, Bool, true, false, ◌&&◌, Option, none, some, List, [], ◌∷◌,
  All, arith, ◌≡◌, refl, inl, inr, count_where, subst, Option-cases, any,
}
use local_api_relay.Common.Int.{ltb_ℤ, leb_ℤ}
use local_api_relay.Common.Text.{Text, text_eq, text_eq_refl}
use local_api_relay.Store.{
  StreamProtocol, protocol_eq, Provider, PublishedModel, ModelRoute, HealthRow, Eligibility, Store,
}
use local_api_relay.Store.Health.{health_of}
use local_api_relay.Store.Order.{
  text_ltb, text_ltb_asym, text_ltb_trans, Ordered, sort_by, sort_by-All, sort_by-Ordered,
  count_where-sort_by, length-sort_by,
}
use local_api_relay.Store.Routing.{
  comes_after, Row, row_after, joined_row, join, eligible_rows, serves, route_of, model_of,
  provider_of, cons_some, only_if, ◌>>?◌, configured_row,
}

comes_after_asym : (a b : ModelRoute) → comes_after a b ≡ true → comes_after b a ≡ false
unfolding comes_after
comes_after_asym a b h = ground (arith, text_ltb_asym b.id a.id)

-- A text that is not above another, by its characters.
unfoldable pub text_leb : Text → Text → Bool
text_leb [] t = true
text_leb (a ∷ s) [] = false
text_leb (a ∷ s) (b ∷ t) = ltb a b || (a == b && text_leb s t)

-- Of two routes the one that costs less comes first, and the one with the lower id if they cost the
-- same.
unfoldable pub in_order : ModelRoute → ModelRoute → Bool
in_order a b =
    leb_ℤ a.cost_multiplier b.cost_multiplier
    && (ltb_ℤ a.cost_multiplier b.cost_multiplier || text_leb a.id b.id)

abbrev pub starts_sorted : ModelRoute → List Row → Bool
starts_sorted r [] = true
starts_sorted r (row ∷ rows) = in_order r row.0

abbrev pub is_sorted : List Row → Bool
is_sorted [] = true
is_sorted (row ∷ rows) = starts_sorted row.0 rows && is_sorted rows

comes_after_trans :
    (a b c : ModelRoute)
    → comes_after a b ≡ false
    → comes_after b c ≡ false
    → comes_after a c ≡ false
unfolding comes_after
comes_after_trans a b c h k = ground (arith, text_ltb_trans a.id b.id c.id)

text_leb_of : (s t : Text) → text_ltb t s ≡ false → text_leb s t ≡ true
unfolding text_ltb text_leb
text_leb_of [] t h = refl
text_leb_of (a ∷ s) [] h = absurd (cc)
text_leb_of (a ∷ s) (b ∷ t) h = ground (arith, text_leb_of s t)

order_of : (a b : ModelRoute) → comes_after a b ≡ false → in_order a b ≡ true
unfolding comes_after in_order
order_of a b h = ground (arith, text_leb_of a.id b.id)

Ordered-sorted : (rows : List Row) → Ordered row_after rows → is_sorted rows ≡ true
Ordered-sorted [] h = refl
Ordered-sorted (row ∷ []) h = refl
Ordered-sorted (row ∷ other ∷ rows) ((e, _), h) =
    ground (arith, order_of row.0 other.0 e, Ordered-sorted (other ∷ rows) h)

order-sorted : (rows : List Row) → is_sorted (sort_by row_after rows) ≡ true
order-sorted rows = Ordered-sorted (sort_by row_after rows) (
    sort_by-Ordered row_after (λ a b. comes_after_asym a.0 b.0)
      (λ a b c. comes_after_trans a.0 b.0 c.0) rows)

-- Inversion of the steps of a join.
>>?-inv :
    {A B : Type 0} (m : Option A) (f : A → Option B) (b : B)
    → (m >>? f) ≡ some b
    → (a : A) × (m ≡ some a) × (f a ≡ some b)
>>?-inv none f b h = absurd (cc)
>>?-inv (some a) f b h = (a, refl, h)

only_if-true : (b : Bool) (u : Unit {0}) → only_if b ≡ some u → b ≡ true
only_if-true true u h = refl
only_if-true false u h = absurd (cc)

some-inj : {A : Type 0} {a b : A} → some a ≡ some b → a ≡ b
some-inj h = cc

abbrev is_true {ℓ} : {A : Type ℓ} → Option A → (A → Bool) → Bool
is_true none p = false
is_true (some a) p = p a

-- What a row of the query says of the store, for one row of the eligibility table.
pub record Joins (s : Store) (key_id name : Text) (protocol : StreamProtocol) (e : Eligibility)
    (row : Row) : Type 0 where
  pub key : text_eq e.key_id key_id ≡ true
  pub route : route_of e.route_id s ≡ some row.0
  pub route_id : row.1.route_id ≡ row.0.id
  pub health : (h : HealthRow) × (health_of row.0.id s ≡ some h) × (row.1.health ≡ h.state)
  pub model :
      (p : PublishedModel) × (model_of row.0.published_model_id s ≡ some p)
      × (text_eq p.name name ≡ true)
  pub protocol_same : protocol_eq row.0.protocol protocol ≡ true
  pub provider :
      (u : Provider) × (provider_of row.0.provider_id s ≡ some u)
      × (row.1.base_url ≡ u.base_url)
      × (row.1.api_key ≡ u.api_key)
      × (row.1.upstream_model_name ≡ row.0.upstream_model_name)

module _ (s : Store) (key_id name : Text) (protocol : StreamProtocol) where
  joined-Joins :
      (e : Eligibility) (row : Row)
      → joined_row s key_id name protocol e ≡ some row
      → Joins s key_id name protocol e row
  unfolding joined_row
  joined-Joins e row h =
      let (_, k, h₁) = >>?-inv (only_if (text_eq e.key_id key_id)) _ row h in
      let (r, is_r, h₂) = >>?-inv (route_of e.route_id s) _ row h₁ in
      let (d, is_d, h₃) = >>?-inv (health_of r.id s) _ row h₂ in
      let (p, is_p, h₄) = >>?-inv (model_of r.published_model_id s) _ row h₃ in
      let (u, is_u, h₅) = >>?-inv (provider_of r.provider_id s) _ row h₄ in
      let (_, ok, h₆) = >>?-inv (only_if (serves name protocol p r)) _ row h₅ in
      let right = only_if-true (serves name protocol p r) _ ok in
      subst (Joins s key_id name protocol e) (some-inj h₆) (record {
        key = only_if-true _ _ k;
        route = is_r;
        route_id = refl;
        health = (d, is_d, refl);
        model = (p, is_p, ground arith);
        protocol_same = ground arith;
        provider = (u, is_u, refl, refl, refl);
      })

module _ (s : Store) (key_id name : Text) (protocol : StreamProtocol) where
  -- A row of the query comes from a row of the eligibility table.
  pub record IsEligible (es : List Eligibility) (row : Row) : Type 0 where
    pub source : Eligibility
    pub joins : Joins s key_id name protocol source row
    pub listed :
        any (λ (e : Eligibility). text_eq e.key_id key_id && text_eq e.route_id source.route_id) es
        ≡ true

  widen :
      (e : Eligibility) (es : List Eligibility) (row : Row)
      → IsEligible es row
      → IsEligible (e ∷ es) row
  widen e es row i = record {
    source = i.source;
    joins = i.joins;
    listed = ground (arith, i.listed);
  }

  widen_all :
      (e : Eligibility) (es : List Eligibility) (rows : List Row)
      → All (IsEligible es) rows
      → All (IsEligible (e ∷ es)) rows
  widen_all e es [] h = tt
  widen_all e es (row ∷ rows) (i, h) = (widen e es row i, widen_all e es rows h)

  add_row :
      (e : Eligibility) (es : List Eligibility) (o : Option Row) (rows : List Row)
      → joined_row s key_id name protocol e ≡ o
      → All (IsEligible (e ∷ es)) rows
      → All (IsEligible (e ∷ es)) (cons_some o rows)
  add_row e es none rows h all = all
  add_row e es (some row) rows h all =
      let j = joined-Joins s key_id name protocol e row h in
      (
        record { source = e; joins = j; listed = ground (arith, j.key, text_eq_refl e.route_id) },
        all,
      )

  join-All : (es : List Eligibility) → All (IsEligible es) (join s key_id name protocol es)
  unfolding join
  join-All [] = tt
  join-All (e ∷ es) =
      add_row e es (joined_row s key_id name protocol e) (join s key_id name protocol es) refl
        (widen_all e es (join s key_id name protocol es) (join-All es))

  pub eligible_rows-All : All (IsEligible s.eligibility) (eligible_rows s key_id name protocol)
  unfolding eligible_rows
  eligible_rows-All =
      sort_by-All row_after (IsEligible s.eligibility) (join s key_id name protocol s.eligibility)
        (join-All s.eligibility)

  -- For any test, as many rows of the query pass it as of the join.
  pub count-eligible_rows :
      (p : Row → Bool)
      → count_where p (eligible_rows s key_id name protocol)
        ≡ count_where p (join s key_id name protocol s.eligibility)
  unfolding eligible_rows
  count-eligible_rows p =
      count_where-sort_by row_after p (join s key_id name protocol s.eligibility)

  -- A row of the eligibility table that offers its route for the call: each table that the query
  -- joins has its row.
  unfoldable pub offers : Eligibility → Bool
  offers e =
      text_eq e.key_id key_id
      && is_true (route_of e.route_id s) (λ r.
        is_some (health_of r.id s)
        && is_some (provider_of r.provider_id s)
        && protocol_eq r.protocol protocol
        && is_true (model_of r.published_model_id s) (λ p. text_eq p.name name))

  joined-offers : (e : Eligibility) → is_some (joined_row s key_id name protocol e) ≡ offers e
  unfolding joined_row offers
  joined-offers e = elim (Option-cases (route_of e.route_id s)) [
    | inl absent ↦ rw absent (ground arith)
    | inr (r, found) ↦ rw found (ground arith)
  ]

  length-join_rows :
      (es : List Eligibility) → length (join s key_id name protocol es) ≡ count_where offers es
  unfolding join count_where
  length-join_rows [] = refl
  length-join_rows (e ∷ es) = ground (arith, joined-offers e, length-join_rows es)

  -- The routes for a call come by ascending cost multiplier, and by their id where it is the same.
  -- Each comes from a row of the eligibility table, with the key, the model, the protocol and the
  -- provider asked for, and carries the health and the connection that the tables hold; and they
  -- are as many as the rows of the eligibility table that offer the key the model under the
  -- protocol.
  pub eligible_rows_correct :
      (is_sorted (eligible_rows s key_id name protocol) ≡ true)
      × All (IsEligible s.eligibility) (eligible_rows s key_id name protocol)
      × (length (eligible_rows s key_id name protocol) ≡ count_where offers s.eligibility)
  unfolding eligible_rows
  eligible_rows_correct = (
    order-sorted (join s key_id name protocol s.eligibility),
    eligible_rows-All,
    length-sort_by row_after (join s key_id name protocol s.eligibility)
        ∙ length-join_rows s.eligibility,
  )

  -- A key with a route for the model is not taken for one without.
  configured :
      (e : Eligibility) (row : Row)
      → joined_row s key_id name protocol e ≡ some row
      → (text_eq e.key_id key_id && configured_row s name protocol (route_of e.route_id s)) ≡ true
  configured e row h =
      let j = joined-Joins s key_id name protocol e row h in
      let (p, is_p, named) = j.model in
      rw (j.key, j.route) (rw (configured_row, is_p) (ground (arith, j.protocol_same)))

  pub none-join :
      (es : List Eligibility)
      → any
          (λ (e : Eligibility).
            text_eq e.key_id key_id && configured_row s name protocol (route_of e.route_id s))
          es
        ≡ false
      → join s key_id name protocol es ≡ []
  unfolding join
  none-join [] h = refl
  none-join (e ∷ es) h = elim (Option-cases (joined_row s key_id name protocol e)) [
    | inl gone ↦ rw gone (none-join es (ground arith))
    | inr (row, is_row) ↦ absurd (ground (arith, configured e row is_row))
  ]
