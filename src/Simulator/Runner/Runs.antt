-- ===== src/Simulator/Runner/Runs.antt =====
-- What a runner goes through: rounds of its loop, and the edits of operators between them.
use hackathon_nu.Base.{ℕ, ◌≤◌, ◌<◌, ◌^◌, ◌≡◌, sym, subst, ◌∙◌, arith, List}
use hackathon_nu.Base.Results.{ok, ok-injective}
use hackathon_nu.Float.{Float}
use hackathon_nu.Float.Laws.{IsOrdered, IsRounded}
use hackathon_nu.Simulator.Locomotive.{Route, Random}
use hackathon_nu.Simulator.Locomotive.Segment.{Place, IsPlaced}
use hackathon_nu.Simulator.Locomotive.OnRoute.{IsOnRoute, IsPlaced-IsOnRoute}
use hackathon_nu.Simulator.Runner.{Runner, new_runner, remove_locomotive}
use hackathon_nu.Simulator.Runner.Fleet.{NewLocomotive, Update, add_locomotive, update_locomotive}
use hackathon_nu.Simulator.Runner.Ticks.{Settings, Outside, run_round}
use hackathon_nu.Simulator.Runner.Rounds.{
  IsHealthy, NeverRaises, TickKeeps, tick-IsPlaced, tick-IsOnRoute, run_round_keeps,
}
use hackathon_nu.Simulator.Runner.Sound.{AreFinite, IsSafe, EditKeeps, edit-IsPlaced}
use hackathon_nu.Simulator.Runner.OnRoute.{edit-IsOnRoute}
use hackathon_nu.Simulator.Runner.Edits.{
  update_locomotive-IsHealthy, add_locomotive-IsHealthy, remove_locomotive-IsHealthy,
}

module _ {F : Type 0} ⦃f : Float F⦄ where
  -- The runners that are reached from a new one by rounds, where the retries raise nothing and the
  -- random choice is that of the source, and by edits, the updates being those of `Allowed`.
  pub data Reached (settings : Settings F) (routes : List (Route F)) (Allowed : Update F → Type 0)
      : Runner F → Type 0 where
    booted : (multiplier : F) → Reached settings routes Allowed (new_runner multiplier)
    added :
        (random : Random F) (loco : NewLocomotive F) {r r' : Runner F}
        → Reached settings routes Allowed r
        → add_locomotive routes random loco r ≡ ok r'
        → Reached settings routes Allowed r'
    updated :
        (loco_id : ℕ) (u : Update F) {r r' : Runner F}
        → Reached settings routes Allowed r
        → Allowed u
        → update_locomotive routes loco_id u r ≡ ok r'
        → Reached settings routes Allowed r'
    removed :
        (loco_id : ℕ) {r r' : Runner F}
        → Reached settings routes Allowed r
        → remove_locomotive loco_id r ≡ ok r'
        → Reached settings routes Allowed r'
    advanced :
        (out : Outside F) {r r' : Runner F}
        → Reached settings routes Allowed r
        → ((id : ℕ) → (out.random id).choice ≤ 8)
        → NeverRaises out.repost
        → run_round settings out r ≡ ok r'
        → Reached settings routes Allowed r'

  module _ (o : IsOrdered F) (l : IsRounded F) (n : ℕ) (Q : Place F → Type 0)
      (fresh : (p : Place F) → IsPlaced n p → Q p) (keeps : TickKeeps Q) where
    -- What ticks and the allowed updates keep holds wherever the runner is.
    Reached-keeps :
        (settings : Settings F) (routes : List (Route F)) (Allowed : Update F → Type 0)
        (r : Runner F)
        → ((u : Update F) → Allowed u → EditKeeps Q routes u)
        → 0 < settings.batch_size
        → AreFinite n routes
        → Reached settings routes Allowed r
        → IsHealthy Q r
    unfolding new_runner
    Reached-keeps settings routes Allowed _ edits p finite (booted multiplier) = (tt, omega arith)
    Reached-keeps settings routes Allowed r' edits p finite (added random loco {r = r} h e) =
        add_locomotive-IsHealthy o l n Q fresh routes random loco r r' finite
          (Reached-keeps settings routes Allowed r edits p finite h) e
    Reached-keeps settings routes Allowed r' edits p finite (updated id u {r = r} h allowed e) =
        update_locomotive-IsHealthy o l n Q fresh routes id u r r' (edits u allowed)
          (Reached-keeps settings routes Allowed r edits p finite h) e
    Reached-keeps settings routes Allowed r' edits p finite (removed id {r = r} h e) =
        remove_locomotive-IsHealthy o l n Q fresh id r r'
          (Reached-keeps settings routes Allowed r edits p finite h) e
    Reached-keeps settings routes Allowed r' edits p finite
          (advanced out {r = r} h choice never e) =
        let (sound, bound) = Reached-keeps settings routes Allowed r edits p finite h in
        let (next, k, i, kept, delivered) =
          run_round_keeps o l Q keeps settings out r choice p never sound bound in
        subst (IsHealthy Q) (ok-injective (sym k ∙ e)) (i, kept)

  module _ (o : IsOrdered F) (l : IsRounded F) (n : ℕ) where
    -- A runner that is reached from a new one by rounds, removals, additions of any locomotives and
    -- any updates, whichever are allowed, has at most `buffer_max` readings in its buffer, and every
    -- locomotive of its fleet has a notch from 0 to 8 and its position, the start and the end of its
    -- segment on its route: from 0 to the route's length. The lengths of the routes are from 0 to
    -- `n`, which is below 10 ^ 15, the batch size is not 0, the retries of a round raise nothing, and
    -- the float arithmetic obeys `IsOrdered` and `IsRounded`.
    pub Reached-IsHealthy :
        (settings : Settings F) (routes : List (Route F)) (Allowed : Update F → Type 0)
        (r : Runner F)
        → n < 10 ^ 15
        → 0 < settings.batch_size
        → AreFinite n routes
        → Reached settings routes Allowed r
        → IsHealthy (IsOnRoute n) r
    Reached-IsHealthy settings routes Allowed r small p finite h =
        Reached-keeps o l n (IsOnRoute n) (IsPlaced-IsOnRoute o l n) (tick-IsOnRoute o l n small)
          settings routes Allowed r (λ u _. edit-IsOnRoute o l n routes u finite) p finite h

    -- A runner that is reached from a new one by rounds, removals, additions and updates that give an
    -- end of the segment wherever they give a start has at most `buffer_max` readings in its buffer,
    -- and every locomotive of its fleet has a notch from 0 to 8 and a position from the start to the
    -- end of its segment, which lies within its route. The lengths of the routes are from 0 to `n`,
    -- which is below 10 ^ 15, the batch size is not 0, the retries of a round raise nothing, and the
    -- float arithmetic obeys `IsOrdered` and `IsRounded`.
    pub Reached-IsPlaced :
        (settings : Settings F) (routes : List (Route F)) (r : Runner F)
        → n < 10 ^ 15
        → 0 < settings.batch_size
        → AreFinite n routes
        → Reached settings routes IsSafe r
        → IsHealthy (IsPlaced n) r
    Reached-IsPlaced settings routes r small p finite h =
        Reached-keeps o l n (IsPlaced n) (λ _ i. i) (tick-IsPlaced o l n small) settings routes
          IsSafe r (λ u safe. edit-IsPlaced o l n routes u finite safe) p finite h
