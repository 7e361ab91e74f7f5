-- ===== src/Simulator/Generators/Complete.antt =====
-- The simulated sensors are those that the processor judges.
use hackathon_nu.Base.{
  ℕ, ◌≤◌, ◌<◌, ◌^◌, ◌≡◌, refl, arith, Bool, true, false, Bool-cases, inl, inr, ◌&&◌, ◌||◌, ◌==◌,
  some, List, [], ◌∷◌, map,
}
use hackathon_nu.Base.Results.{Result, ok}
use hackathon_nu.Float.{Float, zero_f}
use hackathon_nu.Float.Laws.{IsOrdered, IsRounded}
use hackathon_nu.Float.Order.{not-le_of_lt, zero-lt, zero-le, div_total}
use hackathon_nu.Shared.Enums.{LocomotiveType, te33a, kz8a, SensorType, sensor_eq, sensor_beq}
use hackathon_nu.Shared.Constants.{SensorSpec, loco_specs}
use hackathon_nu.Shared.Schemas.{SensorPayload}
use hackathon_nu.Simulator.Locomotive.{LocomotiveState}
use hackathon_nu.Simulator.Locomotive.Segment.{place}
use hackathon_nu.Simulator.Generators.{
  Noise, Generated, pantograph, kz8a_values, diesel_speed, burn_rate, engine_values, is_aess_sleep,
  with_tank, asleep_sensors, engine_sensors, generate_te33a, generate_kz8a, generate_by,
  generate_sensors,
}

-- The sensor has a value among these.
abbrev pub is_measured : {F : Type 0} → List (SensorPayload F) → SensorType → Bool
is_measured [] s = false
is_measured (p ∷ ps) s = p.sensor_type == s || is_measured ps s

abbrev pub all_measured : {F : Type 0} → List (SensorPayload F) → List SensorType → Bool
all_measured ps [] = true
all_measured ps (s ∷ ss) = is_measured ps s && all_measured ps ss

-- The sensors that the health index and the alerts of a type look at.
abbrev pub judged : (F : Type 0) ⦃f : Float F⦄ → LocomotiveType → List SensorType
judged F t = map (λ (p : SensorType × SensorSpec F). p.0) (loco_specs t)

module _ {F : Type 0} ⦃f : Float F⦄ where
  -- A generator changes neither the motion nor the mode.
  abbrev pub KeepsMotion : LocomotiveState F → LocomotiveState F → Type 0
  KeepsMotion s s' =
      (s'.mode ≡ s.mode)
      × (s'.speed ≡ s.speed)
      × (s'.notch ≡ s.notch)
      × (place s' ≡ place s)
      × (s'.arrived ≡ s.arrived)

  -- The values are all there.
  abbrev pub IsComplete : LocomotiveType → LocomotiveState F → Result (Generated F) → Type 0
  IsComplete t s r =
      (sensors : List (SensorPayload F)) × (s' : LocomotiveState F) × (r ≡ ok (sensors, s'))
      × (all_measured sensors (judged F t) ≡ true)
      × KeepsMotion s s'

  module _ (o : IsOrdered F) (l : IsRounded F) where
    lit_div : (a : F) (n : ℕ) → 0 < n → n < 10 ^ 15 → (q : F) × (f.div a (f.lit n 0) ≡ some q)
    lit_div a n p q =
        div_total o l a (f.lit n 0)
          (not-le_of_lt o zero_f (f.lit n 0) (zero-lt o n 0 p q (omega arith)))

    kz8a-IsComplete :
        (noise : ℕ → Noise F) (s : LocomotiveState F) → IsComplete kz8a s (generate_kz8a noise s)
    unfolding generate_kz8a loco_specs sensor_beq
    kz8a-IsComplete noise s =
        let (load, e) = lit_div s.speed 120 (omega arith) (omega arith) in
        let (share, k) = lit_div (pantograph load) 400 (omega arith) (omega arith) in
        let (braking, b) = lit_div (f.sub (f.lit 120 0) s.speed) 120 (omega arith) (omega arith) in
        let out = kz8a_values noise s load share braking in
        (out.0, out.1, rw (e, k, b), refl, (refl, refl, refl, refl, refl))

    engine_total :
        (noise : ℕ → Noise F) (s : LocomotiveState F)
        → s.notch ≤ 8
        → (q p h u : F) × (engine_sensors noise s ≡ ok (engine_values noise s q p h u))
    unfolding engine_sensors
    engine_total noise s n =
        let (q, e) = lit_div (f.lit s.notch 0) 8 (omega arith) (omega arith) in
        let low =
          l.div_lit_nonneg (f.lit s.notch 0) q 8 0 (omega arith) (omega arith) (omega arith)
            (zero-le o s.notch 0) e in
        let high = l.div_unit s.notch 8 0 q n (omega arith) (omega arith) (omega arith) e in
        let (p, k, _, _) = l.pow_unit q (f.lit 15 1) low high (zero-le o 15 1) in
        let (h, a) = lit_div (diesel_speed s) 1050 (omega arith) (omega arith) in
        let (u, b) = lit_div (burn_rate p) 3600 (omega arith) (omega arith) in
        (q, p, h, u, rw (e, k, a, b))

    te33a-IsComplete :
        (noise : ℕ → Noise F) (s : LocomotiveState F)
        → s.notch ≤ 8
        → IsComplete te33a s (generate_te33a noise s)
    unfolding generate_te33a engine_values loco_specs sensor_beq
    te33a-IsComplete noise s n = elim (Bool-cases (is_aess_sleep s.mode)) [
      | inl e ↦
          let out = with_tank noise (asleep_sensors noise s) in
          (out.0, out.1, rw e, refl, (refl, refl, refl, refl, refl))
      | inr e ↦
          let (q, p, h, u, k) = engine_total noise s n in
          let out = with_tank noise (engine_values noise s q p h u) in
          (out.0, out.1, rw (e, k), refl, (refl, refl, refl, refl, refl))
    ]

    -- In a notch from 0 to 8, `_generate_sensors` never raises. It gives a value for each sensor
    -- that the specifications of the locomotive's type name, and leaves the mode, the notch and the
    -- motion of the locomotive as they are. The float arithmetic obeys `IsOrdered` and `IsRounded`.
    pub generate_sensors-IsComplete :
        (noise : ℕ → Noise F) (s : LocomotiveState F)
        → s.notch ≤ 8
        → IsComplete s.loco_type s (generate_sensors noise s)
    unfolding generate_sensors
    generate_sensors-IsComplete noise s n = by_type s.loco_type
      where
        by_type : (t : LocomotiveType) → IsComplete t s (generate_by t noise s)
        by_type te33a = te33a-IsComplete noise s n
        by_type kz8a = kz8a-IsComplete noise s
