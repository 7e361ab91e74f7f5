-- ===== src/Processor/Filter/Reset.antt =====
-- What `reset_filter` forgets.
use hackathon_nu.Base.{
  ℕ, ◌≡◌, refl, Bool, Bool-cases, inl, inr, false, ◌&&◌, ◌||◌, Option, none, some, List, [], ◌∷◌,
  ◌==◌, nat_eq, pair_eq, arith, if◌then◌else◌,
}
use hackathon_nu.Base.Dict.{Dict, get, pop, has, get-pop, has-get}
use hackathon_nu.Shared.Enums.{SensorType, sensor_eq}
use hackathon_nu.Float.{Float}
use hackathon_nu.Processor.Filter.{Key, EmaState, keys_of, delete_all, reset_filter, ema_filter}

-- The keys that a call of `reset_filter` names.
abbrev pub is_reset : ℕ → Option SensorType → Key → Bool
is_reset loco none (l, s) = loco == l
is_reset loco (some t) (l, s) = loco == l && t == s

abbrev contains : Key → List Key → Bool
contains k [] = false
contains k (j ∷ ks) = j == k || contains k ks

get-delete_all :
    {V : Type 0} (k : Key) (ks : List Key) (st : Dict Key V)
    → get k (delete_all ks st) ≡ (if contains k ks then none else get k st)
unfolding delete_all
get-delete_all k [] st = refl
get-delete_all k (j ∷ ks) st = ground (arith, get-delete_all k ks (pop j st), get-pop j k st)

contains-keys_of :
    {V : Type 0} (loco l : ℕ) (s : SensorType) (st : Dict Key V)
    → contains (l, s) (keys_of loco st) ≡ (loco == l && has (l, s) st)
unfolding keys_of has
contains-keys_of loco l s [] = ground arith
contains-keys_of loco l s (((j, t), v) ∷ st) = elim (Bool-cases (j == loco)) [
  | inl e ↦ rw e (ground (arith, contains-keys_of loco l s st))
  | inr e ↦ rw e (ground (arith, contains-keys_of loco l s st))
]

pub get-reset_filter :
    {V : Type 0} (loco : ℕ) (o : Option SensorType) (k : Key) (st : Dict Key V)
    → get k (reset_filter loco o st) ≡ (if is_reset loco o k then none else get k st)
unfolding reset_filter
get-reset_filter loco (some t) (l, s) st = get-pop (loco, t) (l, s) st
get-reset_filter loco none (l, s) st =
    rw (get-delete_all (l, s) (keys_of loco st) st)
      (ground (arith, contains-keys_of loco l s st, has-get (l, s) st))

module _ {F : Type 0} ⦃f : Float F⦄ where
  -- After `reset_filter`, for one sensor or for all, a sensor that it names starts cold: the filter
  -- returns its next raw value unchanged. Every other sensor filters as if there was no reset.
  pub ema_filter-reset_filter :
      (loco : ℕ) (o : Option SensorType) (l : ℕ) (s : SensorType) (raw : F) (st : EmaState F)
      → (ema_filter l s raw (reset_filter loco o st)).0
        ≡ (if is_reset loco o (l, s) then raw else (ema_filter l s raw st).0)
  unfolding ema_filter
  ema_filter-reset_filter loco o l s raw st = ground (arith, get-reset_filter loco o (l, s) st)
