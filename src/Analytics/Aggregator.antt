-- ===== src/Analytics/Aggregator.antt =====
-- services/analytics-service/analytics/aggregator.py, `FleetAggregator`: the last health index of each
-- locomotive, the changes of category since the last publication, and the summary of the fleet.
use hackathon_nu.Base.{
  ℕ, ◌+◌, Bool, true, false, not, Option, none, some, String, string_eq, ◌==◌, List, [], ◌∷◌, ◌++◌,
  length, map, take, if◌then◌else◌,
}
use hackathon_nu.Base.Dict.{Dict, get, put}
use hackathon_nu.Base.Results.{Result, ok, err, Error, zero_division, or_raise, ◌>>=◌}
use hackathon_nu.Float.{Float}
use hackathon_nu.Float.Sorting.{sort_by}
use Prim.Native.Nat.{max as max_nat}
pub mod Changes
pub mod Totals

-- _LocoState
pub record LocoState (F : Type 0) : Type 0 where
  pub locomotive_id : String
  pub locomotive_type : String
  pub score : F
  pub category : String
  pub updated_at : ℕ

-- An element of `_changes`.
pub record Change (F : Type 0) : Type 0 where
  pub locomotive_id : String
  pub locomotive_type : String
  pub old_category : String
  pub new_category : String
  pub score : F
  pub timestamp : ℕ

pub record Aggregator (F : Type 0) : Type 0 where
  pub fleet : Dict String (LocoState F)
  pub changes : List (Change F)
  pub running : Bool

-- The decoded message: the texts that `str` gives, and what `float` makes of the score.
pub record HealthMessage (F : Type 0) : Type 0 where
  pub locomotive_id : Option String
  pub overall_score : Option (Result F)
  pub category : Option String
  pub locomotive_type : Option String

-- An entry of `worst_10`.
pub record Worst (F : Type 0) : Type 0 where
  pub locomotive_id : String
  pub locomotive_type : String
  pub score : F
  pub category : String

-- The counts of the categories.
pub record Counts : Type 0 where
  pub norma : ℕ
  pub vnimanie : ℕ
  pub kritichno : ℕ

pub record Summary (F : Type 0) : Type 0 where
  pub fleet_size : ℕ
  pub avg_score : F
  pub categories : Counts
  pub worst_10 : List (Worst F)
  pub timestamp : ℕ

-- data.get(key, "")
abbrev pub or_blank : Option String → String
or_blank none = ""
or_blank (some text) = text

unfoldable pub count : String → Counts → Counts
count category c =
    if category == "Норма"
    then record c { norma = c.norma + 1 }
    else if category == "Внимание"
    then record c { vnimanie = c.vnimanie + 1 }
    else record c { kritichno = c.kritichno + 1 }

module _ {F : Type 0} where
  abbrev pub new_aggregator : Aggregator F
  new_aggregator = record { fleet = []; changes = []; running = true }

  -- The state that a message makes of its locomotive.
  abbrev pub state_of : ℕ → String → F → HealthMessage F → LocoState F
  state_of now loco_id score m = record {
    locomotive_id = loco_id;
    locomotive_type = or_blank m.locomotive_type;
    score = score;
    category = or_blank m.category;
    updated_at = now;
  }

  abbrev pub change_of : ℕ → LocoState F → String → Change F
  change_of now new old_category = record {
    locomotive_id = new.locomotive_id;
    locomotive_type = new.locomotive_type;
    old_category = old_category;
    new_category = new.category;
    score = new.score;
    timestamp = now;
  }

  -- `if old_category is not None and old_category != new_category`
  abbrev pub changed : ℕ → Option (LocoState F) → LocoState F → List (Change F)
  changed now none new = []
  changed now (some old) new =
      if old.category == new.category then [] else change_of now new old.category ∷ []

  unfoldable pub record_state : ℕ → LocoState F → Aggregator F → Aggregator F
  record_state now new a = record a {
    fleet = put new.locomotive_id new a.fleet;
    changes = a.changes ++ changed now (get new.locomotive_id a.fleet) new;
  }

  unfoldable pub drain_changes : Aggregator F → List (Change F) × Aggregator F
  drain_changes a = (a.changes, record a { changes = [] })

  unfoldable pub stop : Aggregator F → Aggregator F
  stop a = record a { running = false }

  unfoldable pub count_all : List (LocoState F) → Counts → Counts
  unfolding count
  count_all [] c = c
  count_all (s ∷ states) c = count_all states (count s.category c)

  -- self._fleet.values()
  abbrev pub values : Dict String (LocoState F) → List (LocoState F)
  values [] = []
  values ((id, s) ∷ fleet) = s ∷ values fleet

module _ {F : Type 0} ⦃f : Float F⦄ where
  -- float(data.get("overall_score", 0))
  abbrev pub score_or_zero : Option (Result F) → Result F
  score_or_zero none = ok (f.lit 0 0)
  score_or_zero (some score) = score

  unfoldable pub update_state : ℕ → HealthMessage F → Aggregator F → Result (Aggregator F)
  unfolding record_state
  update_state now m a =
      let loco_id = or_blank m.locomotive_id in
      if loco_id == "" then ok a else (do
        score ← score_or_zero m.overall_score
        ok (record_state now (state_of now loco_id score m) a))

  -- One message of `_listen_loop`, where an exception is logged.
  abbrev pub or_keep : Aggregator F → Result (Aggregator F) → Aggregator F
  or_keep a (ok a') = a'
  or_keep a (err e) = a

  unfoldable pub listen : ℕ → Result (HealthMessage F) → Aggregator F → Aggregator F
  unfolding update_state
  listen now message a = or_keep a (message >>= (λ m. update_state now m a))

  abbrev pub total_score : List (LocoState F) → F → F
  total_score [] total = total
  total_score (s ∷ states) total = total_score states (f.add total s.score)

  abbrev pub worst_of : LocoState F → Worst F
  worst_of s = record {
    locomotive_id = s.locomotive_id;
    locomotive_type = s.locomotive_type;
    score = f.round s.score 1;
    category = s.category;
  }

  unfoldable pub compute_summary : ℕ → Aggregator F → Result (Summary F)
  unfolding count_all
  compute_summary now a = do
    let states = values a.fleet
    let fleet_size = length a.fleet
    average ←
        or_raise zero_division
          (f.div (total_score states (f.lit 0 1)) (f.lit (max_nat fleet_size 1) 0))
    ok (record {
      fleet_size = fleet_size;
      avg_score = f.round average 1;
      categories = count_all states (record { norma = 0; vnimanie = 0; kritichno = 0 });
      worst_10 = map worst_of (take 10 (sort_by (λ (s : LocoState F). s.score) states));
      timestamp = now;
    })

  -- One round of `_publish_loop`: nothing for an empty fleet, else the summary and the changes. A
  -- summary that fails leaves the changes where they are.
  abbrev pub publish_with :
      Result (Summary F) → Aggregator F → Option (Summary F × List (Change F)) × Aggregator F
  publish_with (err e) a = (none, a)
  publish_with (ok summary) a =
      let (changes, drained) = drain_changes a in (some (summary, changes), drained)

  abbrev pub publish_some :
      {A : Type 0}
      → List A
      → Result (Summary F)
      → Aggregator F
      → Option (Summary F × List (Change F)) × Aggregator F
  publish_some [] summary a = (none, a)
  publish_some (_ ∷ _) summary a = publish_with summary a

  unfoldable pub publish : ℕ → Aggregator F → Option (Summary F × List (Change F)) × Aggregator F
  unfolding compute_summary drain_changes
  publish now a = publish_some a.fleet (compute_summary now a) a
