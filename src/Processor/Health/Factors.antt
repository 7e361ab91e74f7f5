-- ===== src/Processor/Health/Factors.antt =====
-- The top factors are the five worst penalties.
use Prim.Native.Nat.{min as min_nat}
use mathlib.Core.List.{Perm}
use mathlib.Core.List.Perm
use hackathon_nu.Base.{
  ℕ, suc, ◌≡◌, refl, sym, subst, ap, arith, Bool-cases, inl, inr, List, [], ◌∷◌, ◌++◌, All, map,
  take, drop, length, length-take, take-append-drop,
}
use hackathon_nu.Base.Results.{ok, >>=-eq-ok, ok-injective}
use hackathon_nu.Float.{Float, max, ◌≼◌}
use hackathon_nu.Float.Laws.{IsOrdered}
use hackathon_nu.Shared.Schemas.{TelemetryReading, HealthFactor, HealthIndex}
use hackathon_nu.Processor.Health.Penalties.{Penalty}
use hackathon_nu.Processor.Health.Index.{insert_desc, sort_desc, factor_of, factors_of, health_of}

module _ {F : Type 0} ⦃f : Float F⦄ where
  abbrev AtMost : Penalty F → List (Penalty F) → Type 0
  AtMost p = All (λ (q : Penalty F). q.penalty ≼ p.penalty)

  -- Each penalty is at least every one after it.
  abbrev pub Falling : List (Penalty F) → Type 0
  Falling [] = Unit
  Falling (p ∷ ps) = AtMost p ps × Falling ps

  abbrev pub AreNumbers : List (Penalty F) → Type 0
  AreNumbers = All (λ (p : Penalty F). p.penalty ≼ p.penalty)

  -- What a factor shows of its penalty.
  abbrev pub Shows : HealthFactor F → Penalty F → Type 0
  Shows h p =
      (h.sensor_type ≡ p.sensor_key)
      × (h.value ≡ p.value)
      × (h.unit ≡ p.unit)
      × (h.penalty ≡ f.round p.penalty 4)
      × (h.deviation_pct ≡ f.round p.dev_pct 2)

  abbrev pub ShowAll : List (HealthFactor F) → List (Penalty F) → Type 0
  ShowAll [] [] = Unit
  ShowAll (h ∷ hs) (p ∷ ps) = Shows h p × ShowAll hs ps
  ShowAll _ _ = ⊥

  -- The chosen penalties, the worst first, and those that are left out.
  pub record IsTopFive (ps : List (Penalty F)) (hs : List (HealthFactor F)) : Type 0 where
    pub chosen : List (Penalty F)
    pub left_out : List (Penalty F)
    pub all_there : Perm (chosen ++ left_out) ps
    pub five : length chosen ≡ min_nat 5 (length ps)
    pub worst_first : Falling chosen
    pub worst : All (λ (p : Penalty F). AtMost p left_out) chosen
    pub shown : ShowAll hs chosen

  insert_desc-perm : (p : Penalty F) (ps : List (Penalty F)) → Perm (insert_desc p ps) (p ∷ ps)
  unfolding insert_desc
  insert_desc-perm p [] = Perm.refl (p ∷ [])
  insert_desc-perm p (q ∷ qs) = elim (Bool-cases (f.lt p.penalty q.penalty)) [
    | inl lt ↦ rw lt (Perm.trans (Perm.cons q (insert_desc-perm p qs)) (Perm.swap p q qs))
    | inr ge ↦ rw ge (Perm.refl (p ∷ q ∷ qs))
  ]

  sort_desc-perm : (ps : List (Penalty F)) → Perm (sort_desc ps) ps
  unfolding sort_desc
  sort_desc-perm [] = Perm.refl []
  sort_desc-perm (p ∷ ps) =
      Perm.trans (insert_desc-perm p (sort_desc ps)) (Perm.cons p (sort_desc-perm ps))

  length-insert_desc :
      (p : Penalty F) (ps : List (Penalty F)) → length (insert_desc p ps) ≡ suc (length ps)
  unfolding insert_desc
  length-insert_desc p [] = refl
  length-insert_desc p (q ∷ qs) = ground (arith, length-insert_desc p qs)

  length-sort_desc : (ps : List (Penalty F)) → length (sort_desc ps) ≡ length ps
  unfolding sort_desc
  length-sort_desc [] = refl
  length-sort_desc (p ∷ ps) =
      omega (arith, length-insert_desc p (sort_desc ps), length-sort_desc ps)

  AtMost-insert_desc :
      (b p : Penalty F) (ps : List (Penalty F))
      → p.penalty ≼ b.penalty
      → AtMost b ps
      → AtMost b (insert_desc p ps)
  unfolding insert_desc
  AtMost-insert_desc b p [] h hs = (h, tt)
  AtMost-insert_desc b p (q ∷ qs) h (k, ks) = ground (arith, AtMost-insert_desc b p qs h ks)

  AreNumbers-insert_desc :
      (p : Penalty F) (ps : List (Penalty F))
      → p.penalty ≼ p.penalty
      → AreNumbers ps
      → AreNumbers (insert_desc p ps)
  unfolding insert_desc
  AreNumbers-insert_desc p [] h hs = (h, tt)
  AreNumbers-insert_desc p (q ∷ qs) h (k, ks) = ground (arith, AreNumbers-insert_desc p qs h ks)

  AreNumbers-sort_desc : (ps : List (Penalty F)) → AreNumbers ps → AreNumbers (sort_desc ps)
  unfolding sort_desc
  AreNumbers-sort_desc [] h = tt
  AreNumbers-sort_desc (p ∷ ps) (h, hs) =
      AreNumbers-insert_desc p (sort_desc ps) h (AreNumbers-sort_desc ps hs)

  Falling-append :
      (xs ys : List (Penalty F))
      → Falling (xs ++ ys)
      → Falling xs × All (λ (p : Penalty F). AtMost p ys) xs
  Falling-append [] ys h = (tt, tt)
  Falling-append (x ∷ xs) ys (h, hs) =
      let (a, b) = Falling-append xs ys hs in let (c, d) = All-split xs h in ((c, a), (d, b))
    where
      All-split : (zs : List (Penalty F)) → AtMost x (zs ++ ys) → AtMost x zs × AtMost x ys
      All-split [] h = (tt, h)
      All-split (z ∷ zs) (h, hs) = let (a, b) = All-split zs hs in ((h, a), b)

  factor_of-Shows :
      (base : F) (p : Penalty F) (h : HealthFactor F) → factor_of base p ≡ ok h → Shows h p
  unfolding factor_of
  factor_of-Shows base p h e = ground arith

  factors_of-ShowAll :
      (base : F) (ps : List (Penalty F)) (hs : List (HealthFactor F))
      → factors_of base ps ≡ ok hs
      → ShowAll hs ps
  unfolding factors_of
  factors_of-ShowAll base [] hs e = subst (λ z. ShowAll z []) (ok-injective e) tt
  factors_of-ShowAll base (p ∷ ps) hs e =
      let (x, hx, e2) = >>=-eq-ok (factor_of base p) _ e in
      let (xs, hxs, e3) = >>=-eq-ok (factors_of base ps) _ e2 in
      subst (λ z. ShowAll z (p ∷ ps)) (ok-injective e3)
        (factor_of-Shows base p x hx, factors_of-ShowAll base ps xs hxs)

  module _ (o : IsOrdered F) where
    AtMost-trans :
        (a b : Penalty F) (ps : List (Penalty F))
        → a.penalty ≼ b.penalty
        → AtMost a ps
        → AtMost b ps
    AtMost-trans a b [] h hs = tt
    AtMost-trans a b (p ∷ ps) h (k, ks) =
        (o.le_trans p.penalty a.penalty b.penalty k h, AtMost-trans a b ps h ks)

    insert_desc-Falling :
        (p : Penalty F) (ps : List (Penalty F))
        → p.penalty ≼ p.penalty
        → AreNumbers ps
        → Falling ps
        → Falling (insert_desc p ps)
    unfolding insert_desc
    insert_desc-Falling p [] h ns s = (tt, tt)
    insert_desc-Falling p (q ∷ qs) h (n, ns) (s, ss) =
        elim (Bool-cases (f.lt p.penalty q.penalty)) [
          | inl lt ↦ rw lt (
            AtMost-insert_desc q p qs (o.le_of_lt p.penalty q.penalty lt) s,
            insert_desc-Falling p qs h ns ss,
          )
          | inr ge ↦ rw ge (
              let le : q.penalty ≼ p.penalty = ground (arith, o.le_total p.penalty q.penalty h n) in
              ((le, AtMost-trans q p qs le s), (s, ss)))
        ]

    sort_desc-Falling : (ps : List (Penalty F)) → AreNumbers ps → Falling (sort_desc ps)
    unfolding sort_desc
    sort_desc-Falling [] h = tt
    sort_desc-Falling (p ∷ ps) (h, hs) =
        insert_desc-Falling p (sort_desc ps) h (AreNumbers-sort_desc ps hs)
          (sort_desc-Falling ps hs)

    -- If no penalty is NaN, the top factors of a health index show the five largest penalties, or
    -- all where there are fewer, the largest first; no penalty that is left out is larger.
    pub health_of-IsTopFive :
        (r : TelemetryReading F) (now : ℕ) (total : F) (ps : List (Penalty F)) (h : HealthIndex F)
        → AreNumbers ps
        → health_of r now total ps ≡ ok h
        → IsTopFive ps h.top_factors
    unfolding health_of
    health_of-IsTopFive r now total ps h ns e =
        let sorted = sort_desc ps in
        let base = max (f.sum (map (λ (p : Penalty F). p.penalty) sorted)) (f.lit 1 6) in
        let (hs, made, e2) = >>=-eq-ok (factors_of base (take 5 sorted)) _ e in
        let split = take-append-drop 5 sorted in
        let (first, cross) =
          Falling-append (take 5 sorted) (drop 5 sorted)
            (subst (λ z. Falling z) (sym split) (sort_desc-Falling ps ns)) in
        record {
          chosen = take 5 sorted;
          left_out = drop 5 sorted;
          all_there = subst (λ z. Perm z ps) (sym split) (sort_desc-perm ps);
          five = omega (arith, length-take 5 sorted, length-sort_desc ps);
          worst_first = first;
          worst = cross;
          shown =
              subst (λ z. ShowAll z (take 5 sorted)) (top_factors_lem e2)
                (factors_of-ShowAll base (take 5 sorted) hs made);
        }
      where
        top_factors_lem : {a b : HealthIndex F} → ok a ≡ ok b → a.top_factors ≡ b.top_factors
        top_factors_lem q = ap (λ (i : HealthIndex F). i.top_factors) (ok-injective q)
