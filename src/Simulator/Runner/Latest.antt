-- ===== src/Simulator/Runner/Latest.antt =====
-- runner.py, the buffer as a list: `deque(maxlen=BUFFER_MAX).append`, and the split into batches.
use mathlib.Core.List.{append_assoc, append-nil}
use hackathon_nu.Base.{
  ℕ, zero, suc, ◌+◌, ◌-◌, ◌≤◌, ◌<◌, ◌≡◌, refl, ap, ◌∙◌, true, false, sym, subst, arith, inl, inr,
  Bool-cases, List, [], ◌∷◌, ◌++◌, length, length-append, length-drop, take, drop, take-append-drop,
  leb,
}
use hackathon_nu.Simulator.Runner.Ticks.{buffer_max, append, append_all, batches}

module _ {R : Type 0} where
  -- The last `buffer_max` of a list.
  abbrev pub latest : List R → List R
  latest xs = drop (length xs - buffer_max) xs

  pub length-latest : (xs : List R) → length (latest xs) ≤ buffer_max
  length-latest xs = omega (arith, length-drop (length xs - buffer_max) xs)

  pub latest_short : (xs : List R) → length xs ≤ buffer_max → latest xs ≡ xs
  latest_short xs h =
      let none_lost : length xs - buffer_max ≡ 0 = omega arith in ap (λ k. drop k xs) none_lost

  drop_nil : (n : ℕ) → drop {A = R} n [] ≡ []
  drop_nil zero = refl
  drop_nil (suc n) = refl

  pub drop-drop : (m n : ℕ) (xs : List R) → drop n (drop m xs) ≡ drop (m + n) xs
  drop-drop zero n xs = ap (λ k. drop k xs) (omega arith)
  drop-drop (suc m) n [] = drop_nil n ∙ sym (drop_nil (suc m + n))
  drop-drop (suc m) n (x ∷ xs) =
      let step : suc (m + n) ≡ suc m + n = omega arith in
      drop-drop m n xs ∙ ap (λ k. drop k (x ∷ xs)) step

  pub drop-take : (n : ℕ) (xs : List R) → drop (length (take n xs)) xs ≡ drop n xs
  drop-take zero xs = refl
  drop-take (suc n) [] = refl
  drop-take (suc n) (x ∷ xs) = drop-take n xs

  drop-append : (n : ℕ) (xs ys : List R) → n ≤ length xs → drop n xs ++ ys ≡ drop n (xs ++ ys)
  drop-append zero xs ys h = refl
  drop-append (suc n) [] ys h = absurd (omega arith)
  drop-append (suc n) (x ∷ xs) ys h = drop-append n xs ys (omega arith)

  -- What is lost early is lost in the end.
  pub latest-latest : (xs ys : List R) → latest (latest xs ++ ys) ≡ latest (xs ++ ys)
  latest-latest xs ys =
      let early = length xs - buffer_max in
      let moved : latest xs ++ ys ≡ drop early (xs ++ ys) = drop-append early xs ys (omega arith) in
      let left = length (drop early (xs ++ ys)) - buffer_max in
      let all : early + left ≡ length (xs ++ ys) - buffer_max =
        omega (arith, length-drop early (xs ++ ys), length-append xs ys) in
      ap latest moved ∙ drop-drop early left (xs ++ ys) ∙ ap (λ k. drop k (xs ++ ys)) all

  append-latest :
      (buffer : List R) (x : R)
      → length buffer ≤ buffer_max
      → append buffer x ≡ latest (buffer ++ x ∷ [])
  unfolding append
  append-latest buffer x h = elim (Bool-cases (leb buffer_max (length buffer))) [
    | inl e ↦
        let one : 1 ≡ length (buffer ++ x ∷ []) - buffer_max =
          omega (arith, length-append buffer (x ∷ []), full buffer e) in
        rw e (
          drop-append 1 buffer (x ∷ []) (omega (arith, full buffer e))
          ∙ ap (λ k. drop k (buffer ++ x ∷ [])) one)
    | inr e ↦ rw e (
        sym (
          latest_short (buffer ++ x ∷ [])
            (omega (arith, length-append buffer (x ∷ []), room buffer e))))
  ]
    where
      full : (b : List R) → leb buffer_max (length b) ≡ true → buffer_max ≤ length b
      full b e = ground (arith, e)

      room : (b : List R) → leb buffer_max (length b) ≡ false → length b < buffer_max
      room b e = ground (arith, e)

  -- The buffer keeps the newest readings; the oldest go out at the front.
  pub append_all-latest :
      (buffer xs : List R)
      → length buffer ≤ buffer_max
      → append_all buffer xs ≡ latest (buffer ++ xs)
  unfolding append_all
  append_all-latest buffer [] h = sym (ap latest (append-nil buffer) ∙ latest_short buffer h)
  append_all-latest buffer (x ∷ xs) h =
      let one = append-latest buffer x h in
      let fits = subst (λ z. length z ≤ buffer_max) (sym one) (length-latest (buffer ++ x ∷ [])) in
      append_all-latest (append buffer x) xs fits
      ∙ ap (λ z. latest (z ++ xs)) one
      ∙ latest-latest (buffer ++ x ∷ []) xs
      ∙ ap latest (append_assoc buffer (x ∷ []) xs)

  abbrev pub concat : List (List R) → List R
  concat [] = []
  concat (x ∷ xs) = x ++ concat xs

  -- Enough fuel gives all the batches.
  pub concat-batches :
      (fuel size : ℕ) (xs : List R)
      → 0 < size
      → length xs ≤ fuel
      → concat (batches fuel size xs) ≡ xs
  unfolding batches
  concat-batches zero size [] p h = refl
  concat-batches zero size (x ∷ xs) p h = absurd (omega (arith, h))
  concat-batches (suc fuel) size [] p h = refl
  concat-batches (suc fuel) size (x ∷ xs) p h = rw (
    concat-batches fuel size (drop size (x ∷ xs)) p (omega (arith, length-drop size (x ∷ xs))),
    take-append-drop size (x ∷ xs),
  )
