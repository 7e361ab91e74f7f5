-- ===== src/Analytics/Aggregator/Changes.antt =====
-- The changes of category, over any messages.
use mathlib.Core.List.{append-nil}
use hackathon_nu.Base.{
  ℕ, ◌≡◌, ◌≢◌, refl, ◌∙◌, sym, subst, ap, true, false, Bool-cases, inl, inr, Option, none, some,
  String, string_eq, ◌==◌, List, [], ◌∷◌, ◌++◌, if◌then◌else◌,
}
use hackathon_nu.Base.Dict.{get, get-put}
use hackathon_nu.Base.Results.{Result, ok, err, ◌>>=◌}
use hackathon_nu.Float.{Float}
use hackathon_nu.Analytics.Aggregator.{
  LocoState, Change, Aggregator, HealthMessage, or_blank, state_of, change_of, changed,
  record_state, update_state, listen, drain_changes, or_keep, score_or_zero,
}

differs : (x y : String) → (x == y) ≡ false → x ≢ y
differs x y e h = let k = (string_eq.equals_iff x y).1 h in cc

module _ {F : Type 0} where
  -- The changes of one locomotive lead from the category `old` to the category `now`: each starts
  -- where the one before it ends and is a change.
  abbrev pub LeadsTo : String → String → String → List (Change F) → Type 0
  LeadsTo id old now [] = old ≡ now
  LeadsTo id old now (c ∷ cs) =
      if c.locomotive_id == id
      then (c.old_category ≡ old)
        × (c.old_category ≢ c.new_category)
        × LeadsTo id c.new_category now cs
      else LeadsTo id old now cs

  -- One more change of the locomotive.
  LeadsTo-snoc :
      (id old mid : String) (cs : List (Change F)) (c : Change F)
      → (c.locomotive_id == id) ≡ true
      → c.old_category ≡ mid
      → c.old_category ≢ c.new_category
      → LeadsTo id old mid cs
      → LeadsTo id old c.new_category (cs ++ c ∷ [])
  LeadsTo-snoc id old mid [] c same from differs h = rw same (from ∙ sym h, differs, refl)
  LeadsTo-snoc id old mid (d ∷ cs) c same from differs h =
      elim (Bool-cases (d.locomotive_id == id)) [
        | inl e ↦
            let (a, b, k) = rw e at h in
            rw e (a, b, LeadsTo-snoc id d.new_category mid cs c same from differs k)
        | inr e ↦ rw e (LeadsTo-snoc id old mid cs c same from differs (rw e at h))
      ]

  -- A change of another locomotive.
  LeadsTo-other :
      (id old now : String) (cs : List (Change F)) (c : Change F)
      → (c.locomotive_id == id) ≡ false
      → LeadsTo id old now cs
      → LeadsTo id old now (cs ++ c ∷ [])
  LeadsTo-other id old now [] c other h = rw other h
  LeadsTo-other id old now (d ∷ cs) c other h = elim (Bool-cases (d.locomotive_id == id)) [
    | inl e ↦
        let (a, b, k) = rw e at h in rw e (a, b, LeadsTo-other id d.new_category now cs c other k)
    | inr e ↦ rw e (LeadsTo-other id old now cs c other (rw e at h))
  ]

  -- The locomotive is known, and the changes lead to its category.
  abbrev pub Tracks : String → String → Aggregator F → Type 0
  Tracks id old a =
      (s : LocoState F) × (get id a.fleet ≡ some s) × LeadsTo id old s.category a.changes

  own_change :
      (id old : String) (now : ℕ) (s new : LocoState F) (cs : List (Change F))
      → (new.locomotive_id == id) ≡ true
      → LeadsTo id old s.category cs
      → LeadsTo id old new.category (cs ++ changed now (some s) new)
  own_change id old now s new cs same h = elim (Bool-cases (s.category == new.category)) [
    | inl e ↦
        rw (e, append-nil cs)
          (subst (λ c. LeadsTo id old c cs) ((string_eq.equals_iff s.category new.category).0 e) h)
    | inr e ↦ rw e (
        LeadsTo-snoc id old s.category cs (change_of now new s.category) same refl
          (differs s.category new.category e) h)
  ]

  other_change :
      (id old cat : String) (now : ℕ) (o : Option (LocoState F)) (new : LocoState F)
      (cs : List (Change F))
      → (new.locomotive_id == id) ≡ false
      → LeadsTo id old cat cs
      → LeadsTo id old cat (cs ++ changed now o new)
  other_change id old cat now none new cs other h = rw (append-nil cs) h
  other_change id old cat now (some s) new cs other h =
      elim (Bool-cases (s.category == new.category)) [
        | inl e ↦ rw (e, append-nil cs) h
        | inr e ↦ rw e (LeadsTo-other id old cat cs (change_of now new s.category) other h)
      ]

  record_state-Tracks :
      (id old : String) (now : ℕ) (new : LocoState F) (a : Aggregator F)
      → Tracks id old a
      → Tracks id old (record_state now new a)
  unfolding record_state
  record_state-Tracks id old now new a (s, known, h) = elim (Bool-cases (new.locomotive_id == id)) [
    | inl e ↦
        let same = (string_eq.equals_iff new.locomotive_id id).0 e in
        (
          new,
          rw (get-put new.locomotive_id id new a.fleet, e),
          subst (λ o. LeadsTo id old new.category (a.changes ++ changed now o new))
              (sym known ∙ ap (λ j. get j a.fleet) (sym same))
              (own_change id old now s new a.changes e h),
        )
    | inr e ↦ (
      s,
      rw (get-put new.locomotive_id id new a.fleet, e, known),
      other_change id old s.category now (get new.locomotive_id a.fleet) new a.changes e h,
    )
  ]

module _ {F : Type 0} ⦃f : Float F⦄ where
  update_state-Tracks :
      (id old : String) (now : ℕ) (m : HealthMessage F) (a : Aggregator F)
      → Tracks id old a
      → Tracks id old (or_keep a (update_state now m a))
  unfolding update_state
  update_state-Tracks id old now m a h = elim (Bool-cases (or_blank m.locomotive_id == "")) [
    | inl e ↦ rw e h
    | inr e ↦ rw e (by_score (score_or_zero m.overall_score))
  ]
    where
      by_score :
          (score : Result F)
          → Tracks id old (
              or_keep a (
                score
                >>= (λ x. ok (record_state now (state_of now (or_blank m.locomotive_id) x m) a))))
      by_score (err e) = h
      by_score (ok x) =
          record_state-Tracks id old now (state_of now (or_blank m.locomotive_id) x m) a h

  -- Messages with the times of their arrival.
  abbrev pub listen_all : List (ℕ × Result (HealthMessage F)) → Aggregator F → Aggregator F
  listen_all [] a = a
  listen_all ((now, message) ∷ rest) a = listen_all rest (listen now message a)

  listen_all-Tracks :
      (messages : List (ℕ × Result (HealthMessage F))) (id old : String) (a : Aggregator F)
      → Tracks id old a
      → Tracks id old (listen_all messages a)
  unfolding listen
  listen_all-Tracks [] id old a h = h
  listen_all-Tracks ((now, err e) ∷ rest) id old a h = listen_all-Tracks rest id old a h
  listen_all-Tracks ((now, ok m) ∷ rest) id old a h =
      listen_all-Tracks rest id old (or_keep a (update_state now m a))
        (update_state-Tracks id old now m a h)

  -- From an aggregator whose changes have been published, any messages in any order, malformed ones
  -- among them, leave a locomotive that it knew known, and the changes then pending for it lead from
  -- its category before to its category now, each of them from where the one before it ends to
  -- another category.
  pub drain_changes-LeadsTo :
      (messages : List (ℕ × Result (HealthMessage F))) (id : String) (s : LocoState F)
      (a : Aggregator F)
      → a.changes ≡ []
      → get id a.fleet ≡ some s
      → (s' : LocoState F) × (get id (listen_all messages a).fleet ≡ some s')
        × LeadsTo id s.category s'.category (drain_changes (listen_all messages a)).0
  unfolding drain_changes
  drain_changes-LeadsTo messages id s a fresh known =
      listen_all-Tracks messages id s.category a (s, known, rw fresh refl)
