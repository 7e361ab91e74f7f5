-- ===== src/Processor/Alerts/Severity.antt =====
-- The severity of an alert grows with the deviation and the weight.
use hackathon_nu.Base.{sym, ℕ, ◌≤◌, ◌≡◌, arith}
use hackathon_nu.Base.Results.{ok}
use hackathon_nu.Float.{Float, ◌≼◌}
use hackathon_nu.Float.Laws.{IsOrdered}
use hackathon_nu.Shared.Enums.{AlertSeverity, info, warning, critical, emergency}
use hackathon_nu.Shared.Constants.{SensorSpec}
use hackathon_nu.Processor.Alerts.Evaluate.{severity_of, severity_from_spec, normalized_deviation}

-- The place of a severity in the order of urgency.
abbrev pub rank : AlertSeverity → ℕ
rank info = 0
rank warning = 1
rank critical = 2
rank emergency = 3

module _ {F : Type 0} ⦃f : Float F⦄ (o : IsOrdered F) where
  severity_of-grows :
      (a b v w : F) → a ≼ b → v ≼ w → rank (severity_of a v) ≤ rank (severity_of b w)
  unfolding severity_of
  severity_of-grows a b v w h k = ground (
    arith,
    o.le_trans (f.lit 9 1) a b,
    o.le_trans (f.lit 6 1) a b,
    o.le_trans (f.lit 3 1) a b,
    o.le_trans (f.lit 35 0) v w,
  )

  -- `_severity_from_spec` is monotone: where it returns a severity for each of two values, with a
  -- normalized deviation that is no larger and a weight that is no larger for the first, then the
  -- first severity is no more urgent. The float order obeys `IsOrdered`.
  pub severity_from_spec-grows :
      (x y : F) (spec spec' : SensorSpec F) (a b : F) (s t : AlertSeverity)
      → normalized_deviation x spec ≡ ok a
      → normalized_deviation y spec' ≡ ok b
      → a ≼ b
      → spec.weight ≼ spec'.weight
      → severity_from_spec x spec ≡ ok s
      → severity_from_spec y spec' ≡ ok t
      → rank s ≤ rank t
  unfolding severity_from_spec
  severity_from_spec-grows x y spec spec' a b s t p q h k e g =
      let bound = severity_of-grows a b spec.weight spec'.weight h k in
      let first : severity_of a spec.weight ≡ s = ground (arith, p, e) in
      let second : severity_of b spec'.weight ≡ t = ground (arith, q, g) in
      rw (sym first, sym second) bound
