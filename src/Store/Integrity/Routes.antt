-- ===== src/Store/Integrity/Routes.antt =====
-- src/store.rs: the routes that are created and edited keep their ids and identities apart.
use local_api_relay.Common.{
  ◌≤◌, Bool, true, false, not, ◌&&◌, Option, none, some, List, [], ◌∷◌, ◌++◌, All-append, is_some,
  arith, ◌≡◌, refl, ◌∙◌, update_where-All, count_where-le, Bool-cases, inl, inr, count_where,
  update_where, count_where-update, count_where-append, All_imp, found-append, found-update,
  count-replaced, count_where-same, count_missing,
}
use local_api_relay.Common.Int.{ℤ}
use local_api_relay.Common.Text.{Text, text_eq, text_eq_iff}
use local_api_relay.Store.{
  ModelRoute, Store, protocol_eq, StreamProtocol, chat_completions, responses,
}
use local_api_relay.Store.Health.{is_route}
use local_api_relay.Store.Routing.{route_of}
use local_api_relay.Store.Routes.{
  has_id, Identity, has_identity, not_excluded, route_identity_conflict, insert_route, new_health,
  edit_route, route_with,
}
use local_api_relay.Store.Integrity.{HasEnds, IsWhole}

protocol_eq-same :
    (p q r : StreamProtocol) → protocol_eq p q ≡ true → protocol_eq r q ≡ protocol_eq r p
protocol_eq-same chat_completions chat_completions r e = refl
protocol_eq-same chat_completions responses r e = absurd (cc)
protocol_eq-same responses chat_completions r e = absurd (cc)
protocol_eq-same responses responses r e = refl

-- What is equal to a text is equal to the same texts.
text_eq-same : (a b c : Text) → text_eq a b ≡ true → text_eq c b ≡ text_eq c a
text_eq-same a b c e = rw ((text_eq_iff a b).0 e)

pub text_eq-left : (a b c : Text) → text_eq a b ≡ true → text_eq b c ≡ text_eq a c
text_eq-left a b c e = rw ((text_eq_iff a b).0 e)

same_identity :
    (id : Text) (i j : Identity) (multiplier : ℤ)
    → has_identity j (route_with id i multiplier) ≡ true
    → (r : ModelRoute) → has_identity j r ≡ has_identity i r
same_identity id i j multiplier e r = ground (
  arith,
  text_eq-same i.published_model_id j.published_model_id r.published_model_id,
  text_eq-same i.provider_id j.provider_id r.provider_id,
  text_eq-same i.upstream_model_name j.upstream_model_name r.upstream_model_name,
  protocol_eq-same i.protocol j.protocol r.protocol,
)

-- No route of an identity that does not conflict, other than the excluded one.
no_conflict :
    (s : Store) (i : Identity) (excluded : Option Text)
    → route_identity_conflict s i excluded ≡ false
    → count_where (λ r. has_identity i r && not_excluded excluded r) s.routes ≡ 0
unfolding route_identity_conflict
no_conflict s i excluded e = ground arith

-- One row more leaves a key unique that no row had.
one_more :
    {A : Type 0} (p : A → Bool) (x : A) (xs : List A)
    → count_where p xs ≤ 1
    → (p x ≡ true → count_where p xs ≡ 0)
    → count_where p (xs ++ x ∷ []) ≤ 1
unfolding count_where
one_more p x xs h absent = ground (arith, count_where-append p xs (x ∷ []))

module _ (s : Store) (id : Text) (i : Identity) (multiplier : ℤ) (whole : IsWhole s)
    (ends : HasEnds s (route_with id i multiplier)) where
  -- A new route under a new id and identity.
  pub insert_route-IsWhole :
      route_identity_conflict s i none ≡ false
      → is_some (route_of id s) ≡ false
      → IsWhole (insert_route s (route_with id i multiplier))
  unfolding insert_route count_where
  insert_route-IsWhole free fresh = record {
    one_id = λ x. one_more (has_id x) (route_with id i multiplier) s.routes (whole.one_id x) λ same.
        count_where-same (has_id x) (has_id id) (λ r. text_eq-same id x r.id same) s.routes
        ∙ count_missing (has_id id) s.routes fresh;
    one_identity = λ j.
        one_more (has_identity j) (route_with id i multiplier) s.routes (whole.one_identity j)
          λ same.
            count_where-same (has_identity j) (λ r. has_identity i r && true)
              (λ r. ground (arith, same_identity id i j multiplier same r)) s.routes
            ∙ no_conflict s i none free;
    one_health = λ x. rw (
      count_where-append (is_route x) s.health (new_health id ∷ []),
      count_where-append (has_id x) s.routes (route_with id i multiplier ∷ []),
      whole.one_health x,
    );
    ends = All-append (HasEnds s) s.routes (route_with id i multiplier ∷ []) whole.ends (ends, tt);
    scopes =
        All_imp
          (λ e h.
            (h.0, found-append (has_id e.route_id) s.routes (route_with id i multiplier ∷ []) h.1))
          s.eligibility whole.scopes;
  }

  kept :
      (x : Text)
      → count_where
          (has_id x)
          (update_where (has_id id) (λ old. route_with id i multiplier) s.routes)
        ≡ count_where (has_id x) s.routes
  kept x =
      count_where-update (has_id x) (has_id id) (λ old. route_with id i multiplier)
        (λ r same. text_eq-left r.id id x same) s.routes

  -- An edited route keeps its id, and may take any identity that no other route has.
  pub edit_route-IsWhole :
      route_identity_conflict s i (some id) ≡ false
      → IsWhole (edit_route s (route_with id i multiplier))
  edit_route-IsWhole free = record {
    one_id = λ x. rw (kept x) (whole.one_id x);
    one_identity = λ j.
        rw (count-replaced (has_identity j) (has_id id) (route_with id i multiplier) s.routes)
          (elim (Bool-cases (has_identity j (route_with id i multiplier))) [
            | inl same ↦ rw same (
                rw
                  (count_where-same (λ r. has_identity j r && not (has_id id r))
                      (λ r. has_identity i r && not_excluded (some id) r)
                      (λ r. ground (arith, same_identity id i j multiplier same r)) s.routes
                    ∙ no_conflict s i (some id) free)
                  (omega (arith, whole.one_id id)))
            | inr other ↦ rw other (
                omega (
                  arith,
                  whole.one_identity j,
                  count_where-le (λ r. has_identity j r && not (has_id id r)) (has_identity j)
                      (λ r e. ground arith) s.routes,
                ))
          ]);
    one_health = λ x. rw (kept x) (whole.one_health x);
    ends =
        update_where-All (HasEnds s) (has_id id) (λ old. route_with id i multiplier) (λ r h e. ends)
          s.routes whole.ends;
    scopes =
        All_imp
          (λ e h. (
            h.0,
            found-update (has_id e.route_id) (has_id id) (λ old. route_with id i multiplier)
                  (λ r same. text_eq-left r.id id e.route_id same) s.routes
                ∙ h.1,
          ))
          s.eligibility whole.scopes;
  }
