-- ===== src/Processor/Health/Aging.antt =====
-- The Montsinger accumulator: what one update of the damage does.
use hackathon_nu.Base.{
  ℕ, ◌^◌, ◌<◌, ◌≡◌, ◌≢◌, refl, ◌∙◌, subst, arith, Bool-cases, inl, inr, false, All, nat_eq, pair_eq,
  pair_beq_iff, ◌==◌,
}
use hackathon_nu.Base.Dict.{get, get-put}
use hackathon_nu.Base.Results.{
  Result, ok, err, ok-injective, >>=-eq-ok, or_raise-eq-ok, or_raise, zero_division, overflow,
}
use hackathon_nu.Float.{Float, ◌≼◌, zero_f}
use hackathon_nu.Float.Laws.{IsOrdered, IsRounded}
use hackathon_nu.Float.Order.{lit_refl}
use hackathon_nu.Shared.Enums.{LocomotiveType, te33a, kz8a, SensorType, sensor_eq}
use hackathon_nu.Shared.Constants.{SensorSpec, loco_specs, montsinger_degree_step}
use hackathon_nu.Processor.Filter.{Key}
use hackathon_nu.Processor.Health.Penalties.{
  DamageState, damage_of, add_damage, damage_increment, update_damage,
}

other_key : (loco : ℕ) (s : SensorType) (k : Key) → k.0 ≢ loco → ((loco, s) == k) ≡ false
other_key loco s k h = ground arith

module _ {F : Type 0} ⦃f : Float F⦄ where
  -- No entry is negative or NaN.
  abbrev pub IsNonneg : DamageState F → Type 0
  IsNonneg st = (k : Key) → zero_f ≼ damage_of k st

  -- No entry falls, and those of other locomotives stay.
  pub record Ages (loco : ℕ) (st st' : DamageState F) : Type 0 where
    pub grows : (k : Key) → damage_of k st ≼ damage_of k st'
    pub others : (k : Key) → k.0 ≢ loco → get k st' ≡ get k st

  -- The reference temperature is a literal.
  abbrev pub IsRef : SensorSpec F → Type 0
  IsRef spec = (n : ℕ) × (n < 10 ^ 15) × (spec.montsinger_ref_temp ≡ f.lit n 1)

module _ {F : Type 0} ⦃f : Float F⦄ (o : IsOrdered F) (l : IsRounded F) where
  pub loco_specs-IsRef : (t : LocomotiveType) → All (λ p. IsRef p.1) (loco_specs {F = F} t)
  unfolding loco_specs
  loco_specs-IsRef te33a = (
    (0, omega arith, refl),
    (
      (0, omega arith, refl),
      (
        (0, omega arith, refl),
        (
          (0, omega arith, refl),
          (
            (0, omega arith, refl),
            (
              (0, omega arith, refl),
              (
                (0, omega arith, refl),
                ((0, omega arith, refl), ((0, omega arith, refl), ((0, omega arith, refl), tt))),
              ),
            ),
          ),
        ),
      ),
    ),
  )
  loco_specs-IsRef kz8a = (
    (0, omega arith, refl),
    (
      (0, omega arith, refl),
      (
        (650, omega arith, refl),
        (
          (570, omega arith, refl),
          (
            (0, omega arith, refl),
            (
              (0, omega arith, refl),
              ((0, omega arith, refl), ((0, omega arith, refl), ((0, omega arith, refl), tt))),
            ),
          ),
        ),
      ),
    ),
  )

  pub Ages-refl : (loco : ℕ) (st : DamageState F) → IsNonneg st → Ages loco st st
  Ages-refl loco st h = record { grows = λ k. (o.refl_of_le _ _ (h k)).1; others = λ k _. refl }

  pub Ages-trans :
      (loco : ℕ) (a b c : DamageState F) → Ages loco a b → Ages loco b c → Ages loco a c
  Ages-trans loco a b c p q = record {
    grows = λ k. o.le_trans _ _ _ (p.grows k) (q.grows k);
    others = λ k h. q.others k h ∙ p.others k h;
  }

  pub Ages-IsNonneg :
      (loco : ℕ) (st st' : DamageState F) → IsNonneg st → Ages loco st st' → IsNonneg st'
  Ages-IsNonneg loco st st' h a k = o.le_trans _ _ _ (h k) (a.grows k)

  damage_increment_nonneg :
      (value ref inc : F) (n : ℕ)
      → n < 10 ^ 15
      → ref ≡ f.lit n 1
      → ref ≼ value
      → damage_increment value ref ≡ ok inc
      → zero_f ≼ inc
  unfolding damage_increment
  damage_increment_nonneg value ref inc n small lit le h =
      let (x, hx, h2) =
        >>=-eq-ok (or_raise zero_division (f.div (f.sub value ref) montsinger_degree_step)) _ h in
      let (rate, hr, h3) = >>=-eq-ok (or_raise overflow (f.pow (f.lit 20 1) x)) _ h2 in
      let above : zero_f ≼ f.sub value ref =
        rw lit (l.sub_lit_nonneg value n 1 small (rw lit at le)) in
      let x_nonneg : zero_f ≼ x =
        l.div_lit_nonneg (f.sub value ref) x 60 1 (omega arith) (omega arith) (omega arith) above
          (or_raise-eq-ok zero_division _ hx) in
      let rate_ge : f.lit 10 1 ≼ rate =
        rw (o.lit_whole 1) (l.two_pow x rate x_nonneg (or_raise-eq-ok overflow _ hr)) in
      subst (λ z. zero_f ≼ z) (ok-injective h3)
        (l.mul_lit_nonneg (f.sub rate (f.lit 10 1)) 1 3 (omega arith) (omega arith) (omega arith)
          (l.sub_lit_nonneg rate 10 1 (omega arith) rate_ge))

  pub add_damage-Ages :
      (loco : ℕ) (s : SensorType) (r : Result F) (st : DamageState F)
      → IsNonneg st
      → ((inc : F) → r ≡ ok inc → zero_f ≼ inc)
      → Ages loco st (add_damage (loco, s) r st).1
  add_damage-Ages loco s (err e) st h p = Ages-refl loco st h
  add_damage-Ages loco s (ok inc) st h p = record {
    grows = λ k.
        let old = damage_of (loco, s) st in
        let total = f.add old inc in
        elim (Bool-cases ((loco, s) == k)) [
          | inl same ↦
              rw (get-put (loco, s) k total st, same)
                (subst (λ j. damage_of j st ≼ total) ((pair_beq_iff (loco, s) k).0 same)
                  (l.add_nonneg old inc (h (loco, s)) (p inc refl)).0)
          | inr other ↦ rw (get-put (loco, s) k total st, other) (o.refl_of_le _ _ (h k)).1
        ];
    others = λ k other.
        rw (get-put (loco, s) k (f.add (damage_of (loco, s) st) inc) st, other_key loco s k other);
  }

  above : (value ref : F) → ref ≼ ref → value ≼ value → f.le value ref ≡ false → ref ≼ value
  above value ref r v h = elim (o.le_total value ref v r) [
    | inl lt ↦ cc (o.le_of_lt value ref lt)
    | inr le ↦ le
  ]

  pub update_damage-Ages :
      (loco : ℕ) (s : SensorType) (value : F) (spec : SensorSpec F) (st : DamageState F)
      → IsRef spec
      → value ≼ value
      → IsNonneg st
      → Ages loco st (update_damage loco s value spec st).1
  unfolding update_damage
  update_damage-Ages loco s value spec st (n, small, lit) num h =
      let ref = spec.montsinger_ref_temp in
      elim (Bool-cases (f.le value ref)) [
        | inl low ↦ rw (low, update_damage) (Ages-refl loco st h)
        | inr high ↦
            let le : ref ≼ value = above value ref (rw lit (lit_refl o n 1)) num high in
            rw (high, update_damage)
              (add_damage-Ages loco s (damage_increment value ref) st h
                (λ inc e. damage_increment_nonneg value ref inc n small lit le e))
      ]
