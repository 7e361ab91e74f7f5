-- ===== src/DbWriter/Delivery.antt =====
-- Messages are acknowledged once their rows are in the table, and not before.
use hackathon_nu.Base.{
  ℕ, zero, suc, ◌≤◌, ◌≡◌, refl, sym, subst, arith, inl, inr, Bool, true, false, Bool-cases, ◌||◌,
  some, List, [], ◌∷◌, ◌++◌, length, length-drop, take, drop, take-append-drop, All, All-append,
  if◌then◌else◌,
}
use hackathon_nu.Base.Results.{ok, ok-injective}
use hackathon_nu.DbWriter.Consumer.{
  Codec, Consumer, xack, has_conflict, insert_all, to_tuples, write_chunks, write_rows, write_batch,
  settled, work,
}

module _ {B R T : Type 0} where
  -- A row equal to it for the conflict test is in the table.
  abbrev pub IsStored : Codec B R T → List T → T → Type 0
  IsStored codec table t = has_conflict codec t table ≡ true

  abbrev pub IsReflexive : Codec B R T → Type 0
  IsReflexive codec = (t : T) → codec.conflicts t t ≡ true

  has_conflict-append :
      (codec : Codec B R T) (t u : T) (table : List T)
      → has_conflict codec t (table ++ u ∷ []) ≡ (has_conflict codec t table || codec.conflicts t u)
  has_conflict-append codec t u [] = ground arith
  has_conflict-append codec t u (v ∷ table) = ground (arith, has_conflict-append codec t u table)

  -- What is stored stays stored.
  insert_all-keeps :
      (codec : Codec B R T) (t : T) (ts table : List T)
      → IsStored codec table t
      → IsStored codec (insert_all codec ts table) t
  unfolding insert_all
  insert_all-keeps codec t [] table h = h
  insert_all-keeps codec t (u ∷ ts) table h =
      insert_all-keeps codec t ts (if has_conflict codec u table then table else table ++ u ∷ [])
        (elim (Bool-cases (has_conflict codec u table)) [
          | inl e ↦ rw e h
          | inr e ↦ rw (e, has_conflict-append codec t u table, h)
        ])

  insert_all-IsStored :
      (codec : Codec B R T) (ts table : List T)
      → IsReflexive codec
      → All (IsStored codec (insert_all codec ts table)) ts
  unfolding insert_all
  insert_all-IsStored codec [] table same = tt
  insert_all-IsStored codec (u ∷ ts) table same = (
    insert_all-keeps codec u ts (if has_conflict codec u table then table else table ++ u ∷ [])
        (elim (Bool-cases (has_conflict codec u table)) [
          | inl e ↦ rw e e
          | inr e ↦ rw (e, has_conflict-append codec u u table, e, same u)
        ]),
    insert_all-IsStored codec ts (if has_conflict codec u table then table else table ++ u ∷ [])
        same,
  )

  write_chunks-keeps :
      (codec : Codec B R T) (commits : List T → Bool) (size fuel : ℕ) (ts table : List T) (t : T)
      → IsStored codec table t
      → IsStored codec (write_chunks codec commits size fuel ts table).1 t
  unfolding write_chunks
  write_chunks-keeps codec commits size fuel [] table t h = h
  write_chunks-keeps codec commits size zero (u ∷ ts) table t h = h
  write_chunks-keeps codec commits size (suc fuel) (u ∷ ts) table t h =
      let chunk = take size (u ∷ ts) in
      elim (Bool-cases (commits chunk)) [
        | inl e ↦ rw e (
            write_chunks-keeps codec commits size fuel (drop size (u ∷ ts))
              (insert_all codec chunk table) t (insert_all-keeps codec t chunk table h))
        | inr e ↦ rw e h
      ]

  write_chunks-keeps-All :
      (codec : Codec B R T) (commits : List T → Bool) (size fuel : ℕ) (xs ts table : List T)
      → All (IsStored codec table) xs
      → All (IsStored codec (write_chunks codec commits size fuel ts table).1) xs
  write_chunks-keeps-All codec commits size fuel [] ts table h = tt
  write_chunks-keeps-All codec commits size fuel (x ∷ xs) ts table (h, hs) = (
    write_chunks-keeps codec commits size fuel ts table x h,
    write_chunks-keeps-All codec commits size fuel xs ts table hs,
  )

  write_chunks-IsStored :
      (codec : Codec B R T) (commits : List T → Bool) (size fuel : ℕ) (ts table : List T)
      → IsReflexive codec
      → (write_chunks codec commits size fuel ts table).0 ≡ true
      → All (IsStored codec (write_chunks codec commits size fuel ts table).1) ts
  unfolding write_chunks
  write_chunks-IsStored codec commits size fuel [] table same h = tt
  write_chunks-IsStored codec commits size zero (u ∷ ts) table same h = cc
  write_chunks-IsStored codec commits size (suc fuel) (u ∷ ts) table same h =
      let chunk = take size (u ∷ ts) in
      let rest = drop size (u ∷ ts) in
      let next = insert_all codec chunk table in
      elim (Bool-cases (commits chunk)) [
        | inl e ↦
            let wrote = rw e at h in
            let both =
              All-append (IsStored codec (write_chunks codec commits size fuel rest next).1) chunk
                rest
                (write_chunks-keeps-All codec commits size fuel chunk rest next
                  (insert_all-IsStored codec chunk table same))
                (write_chunks-IsStored codec commits size fuel rest next same wrote) in
            let whole =
              subst (λ z. All (IsStored codec (write_chunks codec commits size fuel rest next).1) z)
                (take-append-drop size (u ∷ ts)) both in
            let step : write_chunks codec commits size (suc fuel) (u ∷ ts) table
                ≡ write_chunks codec commits size fuel rest next =
              rw e in
            subst (λ (w : Bool × List T). All (IsStored codec w.1) (u ∷ ts)) (sym step) whole
        | inr e ↦ let failed = rw e at h in cc
      ]

  -- With a chunk size that is not 0 and no failing transaction, the length is fuel enough.
  write_chunks_total :
      (codec : Codec B R T) (commits : List T → Bool) (size fuel : ℕ) (ts table : List T)
      → ((chunk : List T) → commits chunk ≡ true)
      → length ts ≤ fuel
      → (write_chunks codec commits (suc size) fuel ts table).0 ≡ true
  unfolding write_chunks
  write_chunks_total codec commits size fuel [] table all h = refl
  write_chunks_total codec commits size zero (u ∷ ts) table all h = absurd (omega arith)
  write_chunks_total codec commits size (suc fuel) (u ∷ ts) table all h =
      rw (all (take (suc size) (u ∷ ts))) (
        write_chunks_total codec commits size fuel (drop size ts) _ all
          (rw (length-drop size ts) (omega arith)))

  -- What a batch of rows becomes: acknowledged and in the table, or still pending.
  abbrev pub Delivered :
      Codec B R T → List ℕ → List T → Consumer B R T → Consumer B R T → Bool → Type 0
  Delivered codec ids ts c c' true =
      (c'.pending ≡ xack ids c.pending) × All (IsStored codec c'.table) ts
  Delivered codec ids ts c c' false = c'.pending ≡ c.pending

  write_rows-IsStored :
      (codec : Codec B R T) (commits : List T → Bool) (size : ℕ) (rows : List R) (ts table : List T)
      → IsReflexive codec
      → to_tuples codec rows ≡ ok ts
      → (write_rows codec commits size rows table).0 ≡ true
      → All (IsStored codec (write_rows codec commits size rows table).1) ts
  unfolding write_batch to_tuples
  write_rows-IsStored codec commits size [] ts table same e h =
      let empty : [] ≡ ts = ok-injective e in subst (λ z. All (IsStored codec table) z) empty tt
  write_rows-IsStored codec commits zero (r ∷ rows) ts table same e h = cc
  write_rows-IsStored codec commits (suc size) (r ∷ rows) ts table same e h =
      let wrote = rw e at h in
      rw e (write_chunks-IsStored codec commits (suc size) (length ts) ts table same wrote)

  write_rows_total :
      (codec : Codec B R T) (commits : List T → Bool) (size : ℕ) (rows : List R) (ts table : List T)
      → ((chunk : List T) → commits chunk ≡ true)
      → to_tuples codec rows ≡ ok ts
      → (write_rows codec commits (suc size) rows table).0 ≡ true
  unfolding write_batch to_tuples
  write_rows_total codec commits size [] ts table all e = refl
  write_rows_total codec commits size (r ∷ rows) ts table all e =
      rw e (write_chunks_total codec commits size (length ts) ts table all (omega arith))

  settled-Delivered :
      (codec : Codec B R T) (ids : List ℕ) (queue : List (List ℕ × List R)) (ts : List T)
      (done : Bool) (table : List T) (c : Consumer B R T)
      → (done ≡ true → All (IsStored codec table) ts)
      → Delivered codec ids ts c (settled ids queue (done, table) c) done
  settled-Delivered codec ids queue ts true table c h = (refl, h refl)
  settled-Delivered codec ids queue ts false table c h = refl

  -- A worker that takes a batch off the queue acknowledges its messages only if every row of them
  -- is in the table by then, itself or a row that conflicts with it; if the write fails, at any
  -- chunk, they all stay pending for the next drain. The rows convert to tuples, and a tuple
  -- conflicts with itself.
  pub work-Delivered :
      (codec : Codec B R T) (commits : List T → Bool) (size : ℕ) (ids : List ℕ) (rows : List R)
      (queue : List (List ℕ × List R)) (ts : List T) (c : Consumer B R T)
      → IsReflexive codec
      → c.queue ≡ (ids, rows) ∷ queue
      → to_tuples codec rows ≡ ok ts
      → (c' : Consumer B R T) × (work codec commits size c ≡ some c')
        × (c'.queue ≡ queue)
        × Delivered codec ids ts c c' (write_rows codec commits size rows c.table).0
  unfolding work
  work-Delivered codec commits size ids rows queue ts c same q e =
      let out = write_rows codec commits size rows c.table in
      (
        settled ids queue out c,
        rw q,
        refl,
        settled-Delivered codec ids queue ts out.0 out.1 c
            (λ k. write_rows-IsStored codec commits size rows ts c.table same e k),
      )

  -- If no transaction fails and the chunk size is not 0, the messages of the batch that the worker
  -- takes are acknowledged with all their rows in the table. The rows convert to tuples, and a
  -- tuple conflicts with itself.
  pub work-acknowledges :
      (codec : Codec B R T) (commits : List T → Bool) (size : ℕ) (ids : List ℕ) (rows : List R)
      (queue : List (List ℕ × List R)) (ts : List T) (c : Consumer B R T)
      → IsReflexive codec
      → ((chunk : List T) → commits chunk ≡ true)
      → c.queue ≡ (ids, rows) ∷ queue
      → to_tuples codec rows ≡ ok ts
      → (c' : Consumer B R T) × (work codec commits (suc size) c ≡ some c')
        × (c'.pending ≡ xack ids c.pending)
        × All (IsStored codec c'.table) ts
  work-acknowledges codec commits size ids rows queue ts c same all q e =
      let (c', worked, _, delivered) =
        work-Delivered codec commits (suc size) ids rows queue ts c same q e in
      let (acked, stored) =
        subst (λ b. Delivered codec ids ts c c' b)
          (write_rows_total codec commits size rows ts c.table all e) delivered in
      (c', worked, acked, stored)
