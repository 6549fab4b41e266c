-- ===== src/Store/Windows/Totals.antt =====
-- src/store.rs, `usage_totals`: nothing is lost or counted twice on the way from the rows to the shares.
use mathlib.Core.List.{Permᴰ}
use local_api_relay.Common.{
  Bool, true, false, List, [], ◌∷◌, all, arith, ◌≡◌, ◌↔◌, refl, sym, ap, ◌∙◌, Bool-cases, inl, inr,
  if◌then◌else◌,
}
use local_api_relay.Common.Int.{ℤ, pos, ◌+ℤ◌, add_i64, wrap_i64, wrap_i64_self, int_laws}
use local_api_relay.Common.Int.Wrap.{add_i64-wrap_i64}
use local_api_relay.Common.Text.{Text, text_eq, text_eq_iff}
use local_api_relay.Store.Windows.{
  Amounts, Group, UsageRow, ModelUsageShare, same_group, plus, merge, group_rows, sums_fit,
  add_amounts, share_row, share_rows,
}

pub data Measure : Type 0 where
  input cached output money : Measure

unfoldable pub amount : Measure → Amounts → ℤ
amount input a = a.input_tokens
amount cached a = a.cached_input_tokens
amount output a = a.output_tokens
amount money a = a.estimated_cost

-- The tokens are `i64` values.
unfoldable pub fit : Measure → ℤ → ℤ
fit money x = x
fit _ x = wrap_i64 x

-- The exact sum over the rows of the groups that pass a test.
unfoldable pub total : Measure → (Group → Bool) → List UsageRow → ℤ
total m q [] = pos 0
total m q (row ∷ rows) = (if q row.group then amount m row.amounts else pos 0) +ℤ total m q rows

-- The share of a model in the answer.
unfoldable pub model_share : Measure → Text → List ModelUsageShare → ℤ
model_share m name [] = pos 0
model_share m name (s ∷ ss) =
    if text_eq s.published_model_name name then amount m s.amounts else model_share m name ss

abbrev pub of_model : Text → Group → Bool
of_model name g = text_eq g.published_model_name name

abbrev pub every : Group → Bool
every g = true

pub same_group_iff : (a b : Group) → (same_group a b ≡ true) ↔ (a ≡ b)
unfolding same_group
same_group_iff a b = ground (
  arith,
  text_eq_iff a.published_model_name b.published_model_name,
  text_eq_iff a.provider_id b.provider_id,
  text_eq_iff a.provider_name b.provider_name,
)

amount-plus : (m : Measure) (a b : Amounts) → amount m (plus a b) ≡ amount m a +ℤ amount m b
unfolding amount
amount-plus input a b = refl
amount-plus cached a b = refl
amount-plus output a b = refl
amount-plus money a b = refl

amount-add :
    (m : Measure) (a b : Amounts) → amount m (add_amounts a b) ≡ fit m (amount m a +ℤ amount m b)
unfolding amount add_amounts fit add_i64
amount-add input a b = refl
amount-add cached a b = refl
amount-add output a b = refl
amount-add money a b = refl

fit-fit : (m : Measure) (x y : ℤ) → fit m (fit m x +ℤ y) ≡ fit m (x +ℤ y)
unfolding fit add_i64
fit-fit input x y = add_i64-wrap_i64 x y
fit-fit cached x y = add_i64-wrap_i64 x y
fit-fit output x y = add_i64-wrap_i64 x y
fit-fit money x y = refl

fit-row :
    (m : Measure) (row : UsageRow)
    → sums_fit row ≡ true
    → fit m (amount m row.amounts) ≡ amount m row.amounts
unfolding amount fit
fit-row input row h = wrap_i64_self row.amounts.input_tokens (ground arith)
fit-row cached row h = wrap_i64_self row.amounts.cached_input_tokens (ground arith)
fit-row output row h = wrap_i64_self row.amounts.output_tokens (ground arith)
fit-row money row h = refl

pub zero_add : (x : ℤ) → pos 0 +ℤ x ≡ x
zero_add x = omega int_laws

add_zero : (x : ℤ) → x +ℤ pos 0 ≡ x
add_zero x = omega int_laws

fit-if :
    (m : Measure) (b : Bool) (x y : ℤ)
    → (if b then fit m (fit m x +ℤ y) else fit m x) ≡ fit m (x +ℤ (if b then y else pos 0))
fit-if m true x y = fit-fit m x y
fit-if m false x y = ap (fit m) (sym (add_zero x))

sum_if :
    (b : Bool) (x y z : ℤ)
    → (if b then x +ℤ y else pos 0) +ℤ z
      ≡ (if b then y else pos 0) +ℤ ((if b then x else pos 0) +ℤ z)
sum_if true x y z = omega int_laws
sum_if false x y z = omega int_laws

module _ (m : Measure) (q : Group → Bool) where
  total-merge :
      (row : UsageRow) (gs : List UsageRow) → total m q (merge row gs) ≡ total m q (row ∷ gs)
  unfolding total merge
  total-merge row [] = refl
  total-merge row (g ∷ gs) = elim (Bool-cases (same_group g.group row.group)) [
    | inl same ↦ rw same (
        rw (amount-plus m g.amounts row.amounts, (same_group_iff g.group row.group).0 same)
          (sum_if (q row.group) _ _ _))
    | inr other ↦ rw other (rw (total-merge row gs) (omega int_laws))
  ]

  pub total-group_rows : (rows : List UsageRow) → total m q (group_rows rows) ≡ total m q rows
  unfolding total group_rows
  total-group_rows [] = refl
  total-group_rows (row ∷ rows) = rw (total-merge row (group_rows rows), total-group_rows rows)

  pub total-Perm : {xs ys : List UsageRow} → Permᴰ xs ys → total m q xs ≡ total m q ys
  unfolding total
  total-Perm Permᴰ.nil = refl
  total-Perm (Permᴰ.cons e d) = rw e (rw (total-Perm d))
  total-Perm (Permᴰ.swap e f) = rw e (rw f (omega int_laws))
  total-Perm (Permᴰ.trans d c) = total-Perm d ∙ total-Perm c

module _ (m : Measure) where
  pub sum-share_rows :
      (sum : Amounts) (ms : List ModelUsageShare) (rows : List UsageRow) (x : ℤ)
      → amount m sum ≡ fit m x
      → amount m (share_rows sum ms rows).0 ≡ fit m (x +ℤ total m every rows)
  unfolding share_rows total
  sum-share_rows sum ms [] x h = h ∙ ap (fit m) (omega int_laws)
  sum-share_rows sum ms (row ∷ rows) x h =
      sum-share_rows (add_amounts sum row.amounts) (share_row row ms) rows
        (x +ℤ amount m row.amounts)
        (rw (amount-add m sum row.amounts, h) (fit-fit m x (amount m row.amounts)))
      ∙ ap (fit m) (omega int_laws)

  module _ (name : Text) where
    model_share-share_row :
        (row : UsageRow) (ms : List ModelUsageShare)
        → sums_fit row ≡ true
        → model_share m name (share_row row ms) ≡ (
            if of_model name row.group
            then fit m (model_share m name ms +ℤ amount m row.amounts)
            else model_share m name ms)
    unfolding share_row model_share
    model_share-share_row row [] h = rw (zero_add (amount m row.amounts), fit-row m row h)
    model_share-share_row row (s ∷ ss) h = ground (
      arith,
      amount-add m s.amounts row.amounts,
      model_share-share_row row ss h,
      text_eq_iff s.published_model_name row.group.published_model_name,
      text_eq_iff s.published_model_name name,
      text_eq_iff row.group.published_model_name name,
    )

    pub models-share_rows :
        (sum : Amounts) (ms : List ModelUsageShare) (rows : List UsageRow) (x : ℤ)
        → all sums_fit rows ≡ true
        → model_share m name ms ≡ fit m x
        → model_share m name (share_rows sum ms rows).1 ≡ fit m (x +ℤ total m (of_model name) rows)
    unfolding share_rows total
    models-share_rows sum ms [] x h e = e ∙ ap (fit m) (omega int_laws)
    models-share_rows sum ms (row ∷ rows) x h e =
        models-share_rows (add_amounts sum row.amounts) (share_row row ms) rows
          (x +ℤ (if of_model name row.group then amount m row.amounts else pos 0)) (ground arith)
          (model_share-share_row row ms (ground arith)
            ∙ rw e (fit-if m (of_model name row.group) x (amount m row.amounts)))
        ∙ ap (fit m) (omega int_laws)
