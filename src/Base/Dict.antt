-- ===== src/Base/Dict.antt =====
-- Python's `dict`: an association list in insertion order. A write to a key that is there keeps
-- the key's place; a new key goes to the end.
use hackathon_nu.Base.Tests.{if◌then◌else◌, Bool-cases}
use hackathon_nu.Base.Lists.{length, All}
use hackathon_nu.Base.Equality.{Eq, ◌==◌, ==_refl}
use Prim.Native.Nat.{◌≤◌, ◌+◌}
use mathlib.Core.Path.{◌≡◌, refl, subst}
use mathlib.Core.Logic.{inl, inr}
use mathlib.Core.Option.{some-injective}
use mathlib.Core.Bool.{Bool, true, false}
use mathlib.Core.Option.{Option, none, some}
use mathlib.Core.List.{List, [], ◌∷◌}
use native.Mathlib.Omega.{arith}

abbrev pub Dict {ℓ κ} : Type ℓ → Type κ → Type (ℓ ⊔ κ)
Dict K V = List (K × V)

module _ {ℓ κ} {K : Type ℓ} {V : Type κ} ⦃e : Eq K⦄ where
  -- d.get(k)
  unfoldable pub get : K → Dict K V → Option V
  get k [] = none
  get k ((j, v) ∷ d) = if j == k then some v else get k d

  -- d[k] = v
  unfoldable pub put : K → V → Dict K V → Dict K V
  put k v [] = (k, v) ∷ []
  put k v ((j, w) ∷ d) = if j == k then (j, v) ∷ d else (j, w) ∷ put k v d

  -- d.pop(k, None)
  unfoldable pub pop : K → Dict K V → Dict K V
  pop k [] = []
  pop k ((j, v) ∷ d) = let rest = pop k d in if j == k then rest else (j, v) ∷ rest

  -- k in d
  unfoldable pub has : K → Dict K V → Bool
  has k [] = false
  has k ((j, v) ∷ d) = if j == k then true else has k d

  -- {k: v for k, v in ...}
  unfoldable pub put_all : List (K × V) → Dict K V → Dict K V
  unfolding put
  put_all [] d = d
  put_all ((k, v) ∷ rest) d = put_all rest (put k v d)

  pub get-put :
      (k j : K) (v : V) (d : Dict K V) → get j (put k v d) ≡ (if k == j then some v else get j d)
  unfolding get put
  get-put k j v [] = refl
  get-put k j v ((i, w) ∷ d) =
      ground (arith, e.equals_iff k j, e.equals_iff i k, e.equals_iff i j, get-put k j v d)

  pub get-pop : (k j : K) (d : Dict K V) → get j (pop k d) ≡ (if k == j then none else get j d)
  unfolding get pop
  get-pop k j [] = ground arith
  get-pop k j ((i, w) ∷ d) =
      ground (arith, e.equals_iff k j, e.equals_iff i k, e.equals_iff i j, get-pop k j d)

  pub get-put_self : (k : K) (v : V) (d : Dict K V) → get k (put k v d) ≡ some v
  get-put_self k v d = simp (get-put, ==_refl)

  pub has-get : (k : K) (d : Dict K V) → has k d ≡ false → get k d ≡ none
  unfolding has get
  has-get k [] h = refl
  has-get k ((j, v) ∷ d) h = ground (arith, has-get k d)

  pub length-pop-le : (k : K) (d : Dict K V) → length (pop k d) ≤ length d
  unfolding pop
  length-pop-le k [] = omega arith
  length-pop-le k ((j, v) ∷ d) = ground (arith, length-pop-le k d)

  pub length-put-le : (k : K) (v : V) (d : Dict K V) → length (put k v d) ≤ length d + 1
  unfolding put
  length-put-le k v [] = omega arith
  length-put-le k v ((j, w) ∷ d) = ground (arith, length-put-le k v d)

  pub length-put_old :
      (k : K) (v : V) (d : Dict K V) → has k d ≡ true → length (put k v d) ≡ length d
  unfolding put has
  length-put_old k v [] h = cc
  length-put_old k v ((j, w) ∷ d) h = ground (arith, length-put_old k v d)

module _ {ℓ κ} {K : Type ℓ} {V : Type κ} ⦃e : Eq K⦄ (P : V → Type 0) where
  pub get-put_all-All :
      (xs : List (K × V)) (d : Dict K V)
      → All (λ p. P p.1) xs
      → ((k : K) (v : V) → get k d ≡ some v → P v)
      → (k : K) (v : V) → get k (put_all xs d) ≡ some v
      → P v
  unfolding put_all
  get-put_all-All [] d h old k v g = old k v g
  get-put_all-All ((j, w) ∷ xs) d (h, hs) old k v g =
      get-put_all-All xs (put j w d) hs
        (λ k' v' g'. elim (Bool-cases (j == k')) [
          | inl same ↦ subst P (some-injective w v' (rw (get-put j k' w d, same) at g')) h
          | inr other ↦ old k' v' (rw (get-put j k' w d, other) at g')
        ])
        k v g

  -- A property of every value.
  pub All-put :
      (k : K) (v : V) (d : Dict K V)
      → P v
      → All (λ (p : K × V). P p.1) d
      → All (λ (p : K × V). P p.1) (put k v d)
  unfolding put
  All-put k v [] h hs = (h, tt)
  All-put k v ((j, w) ∷ d) h (i, hs) = elim (Bool-cases (j == k)) [
    | inl same ↦ rw same (h, hs)
    | inr other ↦ rw other (i, All-put k v d h hs)
  ]

  pub All-get :
      (k : K) (v : V) (d : Dict K V) → All (λ (p : K × V). P p.1) d → get k d ≡ some v → P v
  unfolding get
  All-get k v [] hs e = cc
  All-get k v ((j, w) ∷ d) (h, hs) e = elim (Bool-cases (j == k)) [
    | inl same ↦ subst P (some-injective w v (rw same at e)) h
    | inr other ↦ All-get k v d hs (rw other at e)
  ]

  pub All-pop :
      (k : K) (d : Dict K V) → All (λ (p : K × V). P p.1) d → All (λ (p : K × V). P p.1) (pop k d)
  unfolding pop
  All-pop k [] hs = tt
  All-pop k ((j, w) ∷ d) (h, hs) = elim (Bool-cases (j == k)) [
    | inl same ↦ rw same (All-pop k d hs)
    | inr other ↦ rw other (h, All-pop k d hs)
  ]
