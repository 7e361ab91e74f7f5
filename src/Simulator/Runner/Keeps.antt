-- ===== src/Simulator/Runner/Keeps.antt =====
-- The edits of an update that leave the place and the notch of a locomotive as they are.
use hackathon_nu.Base.{
  ◌≡◌, refl, ◌∙◌, if◌then◌else◌, Bool, true, false, Option, none, some, String, string_eq, nat_eq,
}
use hackathon_nu.Float.{Float}
use hackathon_nu.Simulator.Locomotive.{
  LocomotiveState, LocomotiveMode, LocomotiveScenario, normal_scenario, degradation_scenario,
  emergency_scenario, OnArrival,
}
use hackathon_nu.Simulator.Locomotive.Segment.{place}
use hackathon_nu.Simulator.Runner.Fleet.{
  set_start, set_end, set_mode, cleared, set_scenario, set_on_arrival, set_auto_mode, set_speed,
  set_name, scenario_beq,
}

module _ {F : Type 0} ⦃f : Float F⦄ where
  -- The edits after the clamp touch neither the place nor the notch.
  abbrev pub Keeps : LocomotiveState F → LocomotiveState F → Type 0
  Keeps s s' = (s'.notch ≡ s.notch) × (place s' ≡ place s)

  pub Keeps-trans : (a b c : LocomotiveState F) → Keeps a b → Keeps b c → Keeps a c
  Keeps-trans a b c (h, i) (k, j) = (k ∙ h, j ∙ i)

  pub set_mode-Keeps : (m : Option LocomotiveMode) (s : LocomotiveState F) → Keeps s (set_mode m s)
  set_mode-Keeps none s = (refl, refl)
  set_mode-Keeps (some m) s = (refl, refl)

  pub cleared-Keeps : (c : LocomotiveScenario) (s : LocomotiveState F) → Keeps s (cleared c s)
  cleared-Keeps normal_scenario s = (refl, refl)
  cleared-Keeps degradation_scenario s = (refl, refl)
  cleared-Keeps emergency_scenario s = (refl, refl)

  pub set_scenario-Keeps :
      (c : Option LocomotiveScenario) (s : LocomotiveState F) → Keeps s (set_scenario c s)
  set_scenario-Keeps none s = (refl, refl)
  set_scenario-Keeps (some c) s = by_test (scenario_beq c s.scenario)
    where
      by_test :
          (b : Bool)
          → Keeps s (if b then s else cleared c (record s { scenario = c; scenario_tick = 0 }))
      by_test true = (refl, refl)
      by_test false = cleared-Keeps c (record s { scenario = c; scenario_tick = 0 })

  pub set_on_arrival-Keeps :
      (a : Option OnArrival) (s : LocomotiveState F) → Keeps s (set_on_arrival a s)
  set_on_arrival-Keeps none s = (refl, refl)
  set_on_arrival-Keeps (some a) s = (refl, refl)

  pub set_auto_mode-Keeps : (a : Option Bool) (s : LocomotiveState F) → Keeps s (set_auto_mode a s)
  set_auto_mode-Keeps none s = (refl, refl)
  set_auto_mode-Keeps (some a) s = (refl, refl)

  pub set_speed-Keeps : (v : Option F) (s : LocomotiveState F) → Keeps s (set_speed v s)
  set_speed-Keeps none s = (refl, refl)
  set_speed-Keeps (some v) s = (refl, refl)

  pub set_name-Keeps : (name : Option String) (s : LocomotiveState F) → Keeps s (set_name name s)
  set_name-Keeps none s = (refl, refl)
  set_name-Keeps (some name) s = (refl, refl)

  pub set_start_notch : (km : Option F) (s : LocomotiveState F) → (set_start km s).notch ≡ s.notch
  set_start_notch none s = refl
  set_start_notch (some km) s = refl

  pub set_end_notch : (km : Option F) (s : LocomotiveState F) → (set_end km s).notch ≡ s.notch
  set_end_notch none s = refl
  set_end_notch (some km) s = refl
