-- ===== src/Base/Results.antt =====
-- Python exceptions as values. A function that mutates and may raise returns its state beside the
-- result, since what was written before a raise stays written.
use mathlib.Core.Path.{◌≡◌, refl}
use mathlib.Core.Logic.{◌⊎◌, inl, inr}
use mathlib.Core.Option.{Option, none, some}

pub data Error : Type 0 where
  zero_division overflow value_error key_error attribute_error encode_error index_error : Error

-- A raise comes first, as it cuts a chain off.
pub data Result {ℓ} (Value : Type ℓ) : Type ℓ where
  err : Error → Result Value
  ok : Value → Result Value

module _ {ℓ} {A : Type ℓ} where
  -- `none` of an interface is the exception that is named.
  abbrev pub or_raise : Error → Option A → Result A
  or_raise raised (some value) = ok value
  or_raise raised none = err raised

  pub or_raise-eq-ok : (e : Error) (o : Option A) {a : A} → or_raise e o ≡ ok a → o ≡ some a
  or_raise-eq-ok e (some value) h = cc
  or_raise-eq-ok e none h = cc

  pub ok-injective : {a b : A} → ok a ≡ ok b → a ≡ b
  ok-injective h = cc

  pub Result-cases : (r : Result A) → ((e : Error) × (r ≡ err e)) ⊎ ((a : A) × (r ≡ ok a))
  Result-cases (err raised) = inl (raised, refl)
  Result-cases (ok value) = inr (value, refl)

  pub ok_of_no_err : (r : Result A) → ((e : Error) → ¬ (r ≡ err e)) → (a : A) × (r ≡ ok a)
  ok_of_no_err r never = elim (Result-cases r) [
    | inl (raised, h) ↦ absurd (never raised h)
    | inr total ↦ total
  ]

module _ {ℓ κ} {A : Type ℓ} {B : Type κ} where
  infixl 5 ◌>>=◌
  abbrev pub ◌>>=◌ : Result A → (A → Result B) → Result B
  err raised >>= next = err raised
  ok value >>= next = next value

  pub >>=-eq-err :
      (first : Result A) (next : A → Result B) {raised : Error}
      → (first >>= next) ≡ err raised
      → (first ≡ err raised) ⊎ ((a : A) × (first ≡ ok a) × (next a ≡ err raised))
  >>=-eq-err (err e) next h = inl (cc)
  >>=-eq-err (ok value) next h = inr (value, refl, h)

  pub >>=-eq-ok :
      (first : Result A) (next : A → Result B) {value : B}
      → (first >>= next) ≡ ok value
      → (a : A) × (first ≡ ok a) × (next a ≡ ok value)
  >>=-eq-ok (err e) next h = cc
  >>=-eq-ok (ok a) next h = (a, refl, h)

  pub >>=-ok :
      (first : Result A) (next : A → Result B) {a : A} {r : Result B}
      → first ≡ ok a
      → next a ≡ r
      → (first >>= next) ≡ r
  >>=-ok first next h k = rw (h, k)
