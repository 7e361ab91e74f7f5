-- ===== src/Processor/Filter.antt =====
pub mod Reset
pub mod Traces
-- services/processor/processor/services/filter_service.py: the EMA filter and its state, the dict
-- `_ema_state` from a locomotive and a sensor to the last filtered value.
use hackathon_nu.Base.{
  ℕ, ◌≡◌, refl, Bool, true, false, ◌&&◌, Option, none, some, List, [], ◌∷◌, ◌==◌, nat_eq, pair_eq,
  if◌then◌else◌,
}
use hackathon_nu.Base.Dict.{Dict, get, put, pop}
use hackathon_nu.Float.{Float, one_f}
use hackathon_nu.Shared.Enums.{SensorType, sensor_eq}
use hackathon_nu.Shared.Constants.{ema_gain}

abbrev pub Key : Type 0
Key = ℕ × SensorType

abbrev pub EmaState : Type 0 → Type 0
EmaState F = Dict Key F

-- The loop of `reset_filter` over the keys of one locomotive.
keys_of {κ} : {V : Type κ} → ℕ → Dict Key V → List Key
keys_of loco [] = []
keys_of loco (((l, s), v) ∷ st) =
    let rest = keys_of loco st in if l == loco then (l, s) ∷ rest else rest

delete_all {κ} : {V : Type κ} → List Key → Dict Key V → Dict Key V
delete_all [] st = st
delete_all (k ∷ ks) st = delete_all ks (pop k st)

unfoldable pub reset_filter {κ} : {V : Type κ} → ℕ → Option SensorType → Dict Key V → Dict Key V
unfolding keys_of delete_all
reset_filter loco (some s) st = pop (loco, s) st
reset_filter loco none st = delete_all (keys_of loco st) st

module _ {F : Type 0} ⦃f : Float F⦄ where
  -- x̂ = K·z + (1−K)·x̂'
  unfoldable pub smooth : SensorType → F → F → F
  smooth s raw prev =
      let gain = ema_gain s in f.add (f.mul gain raw) (f.mul (f.sub one_f gain) prev)

  unfoldable pub ema_filter : ℕ → SensorType → F → EmaState F → F × EmaState F
  ema_filter loco s raw st = elim (get (loco, s) st) [
    | none ↦ (raw, put (loco, s) raw st)
    | some prev ↦ (smooth s raw prev, put (loco, s) (smooth s raw prev) st)
  ]
