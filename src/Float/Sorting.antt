-- ===== src/Float/Sorting.antt =====
-- Python's `list.sort(key=...)` with a key that is a float: a stable insertion sort, the smallest first.
use Prim.Native.Nat.{min as min_nat}
use mathlib.Core.List.{Perm}
use mathlib.Core.List.Perm
use hackathon_nu.Base.{
  ℕ, suc, ◌≡◌, refl, sym, subst, arith, Bool-cases, inl, inr, List, [], ◌∷◌, ◌++◌, All, take, drop,
  length, length-take, take-append-drop, if◌then◌else◌,
}
use hackathon_nu.Float.Defs.{Float, ◌≼◌}
use hackathon_nu.Float.Laws.{IsOrdered}

module _ {F A : Type 0} ⦃f : Float F⦄ where
  unfoldable pub insert_by : (A → F) → A → List A → List A
  insert_by key x [] = x ∷ []
  insert_by key x (y ∷ ys) = if f.lt (key y) (key x) then y ∷ insert_by key x ys else x ∷ y ∷ ys

  unfoldable pub sort_by : (A → F) → List A → List A
  unfolding insert_by
  sort_by key [] = []
  sort_by key (x ∷ xs) = insert_by key x (sort_by key xs)

  abbrev pub AtLeast : (A → F) → A → List A → Type 0
  AtLeast key x ys = All (λ y. key x ≼ key y) ys

  -- Each element is at most every one after it.
  abbrev pub Rising : (A → F) → List A → Type 0
  Rising key [] = Unit
  Rising key (x ∷ xs) = AtLeast key x xs × Rising key xs

  abbrev pub HaveNumbers : (A → F) → List A → Type 0
  HaveNumbers key xs = All (λ x. key x ≼ key x) xs

  -- The `n` smallest, in order, with those that are left out.
  pub record AreSmallest (key : A → F) (n : ℕ) (xs chosen : List A) : Type 0 where
    pub left_out : List A
    pub all_there : Perm (chosen ++ left_out) xs
    pub count : length chosen ≡ min_nat n (length xs)
    pub in_order : Rising key chosen
    pub smallest : All (λ x. AtLeast key x left_out) chosen

  insert_by-perm : (key : A → F) (x : A) (ys : List A) → Perm (insert_by key x ys) (x ∷ ys)
  unfolding insert_by
  insert_by-perm key x [] = Perm.refl (x ∷ [])
  insert_by-perm key x (y ∷ ys) = elim (Bool-cases (f.lt (key y) (key x))) [
    | inl lt ↦ rw lt (Perm.trans (Perm.cons y (insert_by-perm key x ys)) (Perm.swap x y ys))
    | inr ge ↦ rw ge (Perm.refl (x ∷ y ∷ ys))
  ]

  sort_by-perm : (key : A → F) (xs : List A) → Perm (sort_by key xs) xs
  unfolding sort_by
  sort_by-perm key [] = Perm.refl []
  sort_by-perm key (x ∷ xs) =
      Perm.trans (insert_by-perm key x (sort_by key xs)) (Perm.cons x (sort_by-perm key xs))

  length-insert_by :
      (key : A → F) (x : A) (ys : List A) → length (insert_by key x ys) ≡ suc (length ys)
  unfolding insert_by
  length-insert_by key x [] = refl
  length-insert_by key x (y ∷ ys) = ground (arith, length-insert_by key x ys)

  pub length-sort_by : (key : A → F) (xs : List A) → length (sort_by key xs) ≡ length xs
  unfolding sort_by
  length-sort_by key [] = refl
  length-sort_by key (x ∷ xs) =
      omega (arith, length-insert_by key x (sort_by key xs), length-sort_by key xs)

  AtLeast-insert_by :
      (key : A → F) (b x : A) (ys : List A)
      → key b ≼ key x
      → AtLeast key b ys
      → AtLeast key b (insert_by key x ys)
  unfolding insert_by
  AtLeast-insert_by key b x [] h hs = (h, tt)
  AtLeast-insert_by key b x (y ∷ ys) h (k, ks) = ground (arith, AtLeast-insert_by key b x ys h ks)

  HaveNumbers-insert_by :
      (key : A → F) (x : A) (ys : List A)
      → key x ≼ key x
      → HaveNumbers key ys
      → HaveNumbers key (insert_by key x ys)
  unfolding insert_by
  HaveNumbers-insert_by key x [] h hs = (h, tt)
  HaveNumbers-insert_by key x (y ∷ ys) h (k, ks) =
      ground (arith, HaveNumbers-insert_by key x ys h ks)

  HaveNumbers-sort_by :
      (key : A → F) (xs : List A) → HaveNumbers key xs → HaveNumbers key (sort_by key xs)
  unfolding sort_by
  HaveNumbers-sort_by key [] h = tt
  HaveNumbers-sort_by key (x ∷ xs) (h, hs) =
      HaveNumbers-insert_by key x (sort_by key xs) h (HaveNumbers-sort_by key xs hs)

  AtLeast-split :
      (key : A → F) (b : A) (xs ys : List A)
      → AtLeast key b (xs ++ ys)
      → AtLeast key b xs × AtLeast key b ys
  AtLeast-split key b [] ys h = (tt, h)
  AtLeast-split key b (x ∷ xs) ys (h, hs) = let (k, m) = AtLeast-split key b xs ys hs in ((h, k), m)

  Rising-split :
      (key : A → F) (xs ys : List A)
      → Rising key (xs ++ ys)
      → Rising key xs × All (λ x. AtLeast key x ys) xs
  Rising-split key [] ys h = (tt, tt)
  Rising-split key (x ∷ xs) ys (h, hs) =
      let (k, m) = Rising-split key xs ys hs in
      let (a, b) = AtLeast-split key x xs ys h in ((a, k), (b, m))

  module _ (o : IsOrdered F) where
    AtLeast-trans :
        (key : A → F) (a b : A) (ys : List A) → key a ≼ key b → AtLeast key b ys → AtLeast key a ys
    AtLeast-trans key a b [] h hs = tt
    AtLeast-trans key a b (y ∷ ys) h (k, ks) =
        (o.le_trans (key a) (key b) (key y) h k, AtLeast-trans key a b ys h ks)

    insert_by-Rising :
        (key : A → F) (x : A) (ys : List A)
        → key x ≼ key x
        → HaveNumbers key ys
        → Rising key ys
        → Rising key (insert_by key x ys)
    unfolding insert_by
    insert_by-Rising key x [] h ns s = (tt, tt)
    insert_by-Rising key x (y ∷ ys) h (n, ns) (s, ss) = elim (Bool-cases (f.lt (key y) (key x))) [
      | inl lt ↦ rw lt (
        AtLeast-insert_by key y x ys (o.le_of_lt (key y) (key x) lt) s,
        insert_by-Rising key x ys h ns ss,
      )
      | inr ge ↦ rw ge (
          let le : key x ≼ key y = ground (arith, o.le_total (key y) (key x) n h) in
          ((le, AtLeast-trans key x y ys le s), (s, ss)))
    ]

    pub sort_by-Rising :
        (key : A → F) (xs : List A) → HaveNumbers key xs → Rising key (sort_by key xs)
    unfolding sort_by
    sort_by-Rising key [] h = tt
    sort_by-Rising key (x ∷ xs) (h, hs) =
        insert_by-Rising key x (sort_by key xs) h (HaveNumbers-sort_by key xs hs)
          (sort_by-Rising key xs hs)

    pub take-AreSmallest :
        (key : A → F) (n : ℕ) (xs : List A)
        → HaveNumbers key xs
        → AreSmallest key n xs (take n (sort_by key xs))
    take-AreSmallest key n xs h =
        let sorted = sort_by key xs in
        let split = take-append-drop n sorted in
        let (rising, cross) =
          Rising-split key (take n sorted) (drop n sorted)
            (subst (λ z. Rising key z) (sym split) (sort_by-Rising key xs h)) in
        record {
          left_out = drop n sorted;
          all_there = subst (λ z. Perm z xs) (sym split) (sort_by-perm key xs);
          count = omega (arith, length-take n sorted, length-sort_by key xs);
          in_order = rising;
          smallest = cross;
        }
