-- ===== src/Store/Ensures.antt =====
-- What an operation of the store ensures when it succeeds, by rules that follow its steps.
use local_api_relay.Common.{Bool, true, false, ◌≡◌, refl, subst, if◌then◌else◌}
use local_api_relay.Store.{StoreError, Result, ok, err, ◌>>=◌, ◌>>◌, guard}

pub data Ensures {ℓ κ} {T : Type ℓ} (P : T → Type κ) : Result T → Type (ℓ ⊔ κ) where
  failed : {why : StoreError} → Ensures P (err why)
  done : {t : T} → P t → Ensures P (ok t)

module _ {ℓ κ} {T : Type ℓ} {P : T → Type κ} where
  pub Ensures-bind {ι} :
      {S : Type ι} (m : Result S) {f : S → Result T}
      → ((a : S) → m ≡ ok a → Ensures P (f a))
      → Ensures P (m >>= f)
  Ensures-bind (err why) next = failed
  Ensures-bind (ok a) next = next a refl

  pub Ensures-guard :
      (test : Bool) (why : StoreError) {rest : Result T}
      → (test ≡ true → Ensures P rest)
      → Ensures P (guard test why >> rest)
  Ensures-guard false why next = failed
  Ensures-guard true why next = next refl

  pub Ensures-if :
      (test : Bool) {first second : Result T}
      → Ensures P first
      → Ensures P second
      → Ensures P (if test then first else second)
  Ensures-if true p q = p
  Ensures-if false p q = q

  pub ensured : {r : Result T} → Ensures P r → (t : T) → r ≡ ok t → P t
  ensured failed t e = absurd (cc)
  ensured (done {t = t'} p) t e = subst P (cc e) p
