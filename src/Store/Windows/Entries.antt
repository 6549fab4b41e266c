-- ===== src/Store/Windows/Entries.antt =====
-- src/store.rs, `usage_totals`: each group of the query becomes one share of one provider.
use mathlib.Core.List.{Permᴰ}
use mathlib.Core.List.Permᴰ
use local_api_relay.Common.{
  ◌≤◌, Bool, true, List, [], ◌∷◌, ◌++◌, map, all, arith, ◌≡◌, refl, sym, ap, ◌∙◌, Bool-cases, inl,
  inr, if◌then◌else◌, count_where, max, subst, append-nil,
}
use local_api_relay.Common.Int.{ℤ, pos, wrap_i64, ◌+ℤ◌}
use local_api_relay.Common.Text.{Text, text_eq, text_eq_iff}
use local_api_relay.Store.{Store, ok, sql}
use local_api_relay.Store.Ensures.{Ensures, Ensures-bind, Ensures-guard, ensured}
use local_api_relay.Store.Order.{sort_by, insert_by}
use local_api_relay.Store.Windows.{
  Amounts, Group, UsageRow, ProviderUsageShare, ModelUsageShare, UsageTotals, window_rows,
  same_group, merge, group_rows, group_after, sums_fit, usage_groups, nothing, add_amounts,
  provider_share, share_row, share_rows, totals_of, usage_totals,
}
use local_api_relay.Store.Windows.Totals.{
  Measure, input, cached, output, money, amount, fit, total, model_share, zero_add, of_model, every,
  same_group_iff, total-group_rows, total-Perm, sum-share_rows, models-share_rows,
}

-- The shares of the providers, each with the name of its model.
abbrev entry_of : Text → ProviderUsageShare → UsageRow
entry_of name p = record {
  group = record {
    published_model_name = name;
    provider_id = p.provider_id;
    provider_name = p.provider_name;
  };
  amounts = p.amounts;
}

unfoldable pub provider_entries : List ModelUsageShare → List UsageRow
provider_entries [] = []
provider_entries (s ∷ ss) = map (entry_of s.published_model_name) s.providers ++ provider_entries ss

insert_by-Perm {ℓ} :
    {A : Type ℓ} (after : A → A → Bool) (x : A) (ys : List A)
    → Permᴰ (insert_by after x ys) (x ∷ ys)
unfolding insert_by
insert_by-Perm after x [] = Permᴰ.refl (x ∷ [])
insert_by-Perm after x (y ∷ ys) = elim (Bool-cases (after x y)) [
  | inl later ↦
      rw later (Permᴰ.trans (Permᴰ.cons refl (insert_by-Perm after x ys)) (Permᴰ.swap refl refl))
  | inr first ↦ rw first (Permᴰ.refl (x ∷ y ∷ ys))
]

sort_by-Perm {ℓ} : {A : Type ℓ} (after : A → A → Bool) (xs : List A) → Permᴰ (sort_by after xs) xs
unfolding sort_by
sort_by-Perm after [] = Permᴰ.nil
sort_by-Perm after (x ∷ xs) =
    Permᴰ.trans (insert_by-Perm after x (sort_by after xs))
      (Permᴰ.cons refl (sort_by-Perm after xs))

new_entry :
    (row : UsageRow) (name : Text) (ps : List ProviderUsageShare) (rest : List UsageRow)
    → name ≡ row.group.published_model_name
    → Permᴰ
        (map (entry_of name) (ps ++ provider_share row ∷ []) ++ rest)
        (row ∷ (map (entry_of name) ps ++ rest))
new_entry row name [] rest e = Permᴰ.cons (rw e) (Permᴰ.refl rest)
new_entry row name (p ∷ ps) rest e =
    Permᴰ.trans (Permᴰ.cons refl (new_entry row name ps rest e)) (Permᴰ.swap refl refl)

share_row-Perm :
    (row : UsageRow) (ms : List ModelUsageShare)
    → Permᴰ (provider_entries (share_row row ms)) (row ∷ provider_entries ms)
unfolding share_row provider_entries
share_row-Perm row [] = Permᴰ.refl (row ∷ [])
share_row-Perm row (s ∷ ss) =
    let name = row.group.published_model_name in
    let old = map (entry_of s.published_model_name) s.providers in
    elim (Bool-cases (text_eq s.published_model_name name)) [
      | inl same ↦ rw same (
          new_entry row s.published_model_name s.providers (provider_entries ss)
            ((text_eq_iff s.published_model_name name).0 same))
      | inr other ↦ rw other (
          Permᴰ.trans (Permᴰ.append_left old (share_row-Perm row ss))
            (Permᴰ.middle row old (provider_entries ss)))
    ]

share_rows-Perm :
    (sum : Amounts) (ms : List ModelUsageShare) (rows : List UsageRow)
    → Permᴰ (provider_entries (share_rows sum ms rows).1) (rows ++ provider_entries ms)
unfolding share_rows
share_rows-Perm sum ms [] = Permᴰ.refl (provider_entries ms)
share_rows-Perm sum ms (row ∷ rows) =
    Permᴰ.trans (share_rows-Perm (add_amounts sum row.amounts) (share_row row ms) rows) (
      Permᴰ.trans (Permᴰ.append_left rows (share_row-Perm row ms))
        (Permᴰ.middle row rows (provider_entries ms)))

count-Perm :
    (p : UsageRow → Bool) {xs ys : List UsageRow}
    → Permᴰ xs ys
    → count_where p xs ≡ count_where p ys
unfolding count_where
count-Perm p Permᴰ.nil = refl
count-Perm p (Permᴰ.cons e d) = rw e (rw (count-Perm p d))
count-Perm p (Permᴰ.swap e f) = rw e (rw f (ground arith))
count-Perm p (Permᴰ.trans d c) = count-Perm p d ∙ count-Perm p c

-- No group occurs twice.
abbrev pub in_group : Group → UsageRow → Bool
in_group g row = same_group row.group g

count-merge :
    (g : Group) (row : UsageRow) (gs : List UsageRow)
    → count_where (in_group g) (merge row gs) ≡ (
        if in_group g row then max 1 (count_where (in_group g) gs) else count_where (in_group g) gs)
unfolding merge count_where
count-merge g row [] = ground arith
count-merge g row (x ∷ xs) = ground (
  arith,
  count-merge g row xs,
  same_group_iff x.group row.group,
  same_group_iff x.group g,
  same_group_iff row.group g,
)

count-group_rows :
    (g : Group) (rows : List UsageRow) → count_where (in_group g) (group_rows rows) ≤ 1
unfolding group_rows count_where
count-group_rows g [] = omega arith
count-group_rows g (row ∷ rows) =
    ground (arith, count-merge g row (group_rows rows), count-group_rows g rows)

abbrev pub IsUsage : List UsageRow → UsageTotals → Type 0
IsUsage rows t =
    ((m : Measure) → amount m t.amounts ≡ fit m (total m every rows))
    × ((m : Measure) (name : Text)
        → model_share m name t.models ≡ fit m (total m (of_model name) rows))
    × ((m : Measure) (q : Group → Bool) → total m q (provider_entries t.models) ≡ total m q rows)
    × ((g : Group) → count_where (in_group g) (provider_entries t.models) ≤ 1)

zero-fit : (m : Measure) → pos 0 ≡ fit m (pos 0)
unfolding fit wrap_i64
zero-fit input = refl
zero-fit cached = refl
zero-fit output = refl
zero-fit money = refl

nothing-fit : (m : Measure) → amount m nothing ≡ fit m (pos 0)
unfolding amount
nothing-fit input = zero-fit input
nothing-fit cached = zero-fit cached
nothing-fit output = zero-fit output
nothing-fit money = zero-fit money

module _ (rows : List UsageRow) where
  abbrev groups_of : List UsageRow
  groups_of = sort_by group_after (group_rows rows)

  sum_groups : (m : Measure) (q : Group → Bool) → total m q groups_of ≡ total m q rows
  sum_groups m q =
      total-Perm m q (sort_by-Perm group_after (group_rows rows)) ∙ total-group_rows m q rows

  zero_plus : (m : Measure) (q : Group → Bool) → pos 0 +ℤ total m q groups_of ≡ total m q rows
  zero_plus m q = zero_add (total m q groups_of) ∙ sum_groups m q

  entries-Perm : Permᴰ (provider_entries (share_rows nothing [] groups_of).1) (group_rows rows)
  unfolding provider_entries
  entries-Perm = Permᴰ.trans (share_rows-Perm nothing [] groups_of) (
      subst (λ gs. Permᴰ gs (group_rows rows)) (sym (append-nil groups_of))
        (sort_by-Perm group_after (group_rows rows)))

  shares-IsUsage :
      all sums_fit groups_of ≡ true → IsUsage rows (totals_of (share_rows nothing [] groups_of))
  unfolding model_share
  shares-IsUsage h = (
    λ m.
        sum-share_rows m nothing [] groups_of (pos 0) (nothing-fit m)
        ∙ ap (fit m) (zero_plus m every),
    λ m name.
        models-share_rows m name nothing [] groups_of (pos 0) h (zero-fit m)
        ∙ ap (fit m) (zero_plus m (of_model name)),
    λ m q. total-Perm m q entries-Perm ∙ total-group_rows m q rows,
    λ g. omega (arith, count-Perm (in_group g) entries-Perm, count-group_rows g rows),
  )

module _ (s : Store) (window : Text) (now_ms : ℤ) where
  abbrev IsGrouped : List UsageRow → Type 0
  IsGrouped groups =
      (rows : List UsageRow) × (window_rows s window now_ms ≡ ok rows)
      × (groups ≡ groups_of rows)
      × (all sums_fit groups ≡ true)

  usage_groups-IsGrouped :
      (groups : List UsageRow) → usage_groups s window now_ms ≡ ok groups → IsGrouped groups
  unfolding usage_groups
  usage_groups-IsGrouped = ensured {P = IsGrouped} (
      Ensures-bind (window_rows s window now_ms) λ rows e.
        Ensures-guard (all sums_fit (groups_of rows)) sql λ h. Ensures.done (rows, e, refl, h))

  abbrev pub Reports : UsageTotals → Type 0
  Reports t = (rows : List UsageRow) × (window_rows s window now_ms ≡ ok rows) × IsUsage rows t

  -- The usage of a window, if it is reported, is that of the rows that the window counts, the
  -- recorded calls or the days of the permanent aggregate. For the input, cached and output tokens
  -- and for the cost, the total and the share of each model are the sums over those rows, modulo
  -- 2^64 for tokens; the provider shares of any set of groups add up exactly to their rows; and no
  -- model, provider and provider name is listed twice.
  pub usage_totals-IsUsage : (t : UsageTotals) → usage_totals s window now_ms ≡ ok t → Reports t
  unfolding usage_totals
  usage_totals-IsUsage = ensured {P = Reports} (
      Ensures-bind (usage_groups s window now_ms) λ groups e.
        let (rows, read, same, h) = usage_groups-IsGrouped groups e in
        Ensures.done (
          rows,
          read,
          subst (λ gs. IsUsage rows (totals_of (share_rows nothing [] gs))) (sym same)
              (shares-IsUsage rows (subst (λ gs. all sums_fit gs ≡ true) same h)),
        ))
