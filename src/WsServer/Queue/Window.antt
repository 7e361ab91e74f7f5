-- ===== src/WsServer/Queue/Window.antt =====
-- The queue of a client is a window on the frames that were sent to it.
use mathlib.Core.List.{append_assoc, append-nil}
use hackathon_nu.Base.{
  ℕ, zero, suc, ◌+◌, ◌-◌, ◌≤◌, ◌≡◌, ◌∙◌, refl, sym, ap, arith, inl, inr, Bool-cases, List, [], ◌∷◌,
  ◌++◌, length, length-append, length-drop, ltb, drop,
}
use hackathon_nu.WsServer.Queue.{queue_max, offer}

module _ {ℓ} {A : Type ℓ} where
  -- Frames one after the other, with no read in between.
  abbrev pub offer_all : List A → List A → List A
  offer_all [] queue = queue
  offer_all (frame ∷ frames) queue = offer_all frames (offer frame queue)

  -- The last `queue_max` of a list.
  abbrev pub latest_frames : List A → List A
  latest_frames frames = drop (length frames - queue_max) frames

  drop-append_le : (n : ℕ) (xs ys : List A) → n ≤ length xs → drop n (xs ++ ys) ≡ drop n xs ++ ys
  drop-append_le zero xs ys h = refl
  drop-append_le (suc n) [] ys h = absurd (omega arith)
  drop-append_le (suc n) (x ∷ xs) ys h = drop-append_le n xs ys (omega arith)

  drop_nil : (n : ℕ) → drop {A = A} n [] ≡ []
  drop_nil zero = refl
  drop_nil (suc n) = refl

  drop-drop : (m n : ℕ) (xs : List A) → drop m (drop n xs) ≡ drop (n + m) xs
  drop-drop m zero xs = let count : m ≡ 0 + m = omega arith in ap (λ k. drop k xs) count
  drop-drop m (suc n) [] = drop_nil m ∙ sym (drop_nil (suc n + m))
  drop-drop m (suc n) (x ∷ xs) =
      let count : suc (n + m) ≡ suc n + m = omega arith in
      drop-drop m n xs ∙ ap (λ k. drop k (x ∷ xs)) count

  -- One frame drops as many as the queue is too long by then.
  offer-drop :
      (frame : A) (queue : List A)
      → length queue ≤ queue_max
      → offer frame queue ≡ drop (suc (length queue) - queue_max) queue ++ frame ∷ []
  unfolding offer
  offer-drop frame queue h = elim (Bool-cases (ltb (length queue) queue_max)) [
    | inl e ↦
        let count : 0 ≡ suc (length queue) - queue_max = ground arith in
        rw e (ap (λ k. drop k queue ++ frame ∷ []) count)
    | inr e ↦
        let count : 1 ≡ suc (length queue) - queue_max = ground arith in
        rw e (ap (λ k. drop k queue ++ frame ∷ []) count)
  ]

  -- The queue of a client never holds more than `queue_max` frames.
  pub length-offer :
      (frame : A) (queue : List A)
      → length queue ≤ queue_max
      → length (offer frame queue) ≤ queue_max
  length-offer frame queue h =
      let excess = suc (length queue) - queue_max in
      rw
        (
          offer-drop frame queue h,
          length-append (drop excess queue) (frame ∷ []),
          length-drop excess queue,
        )
        (omega arith)

  -- From a queue that is not overfull, any number of frames with no read in between leave the
  -- latest `queue_max` of the old and the new frames, in order: only the oldest are lost.
  pub offer_all-latest_frames :
      (frames queue : List A)
      → length queue ≤ queue_max
      → offer_all frames queue ≡ latest_frames (queue ++ frames)
  offer_all-latest_frames [] queue h =
      let count : 0 ≡ length queue - queue_max = omega arith in
      rw (append-nil queue) (ap (λ k. drop k queue) count)
  offer_all-latest_frames (frame ∷ frames) queue h =
      let excess = suc (length queue) - queue_max in
      let next = offer_all-latest_frames frames (offer frame queue) (length-offer frame queue h) in
      let moved : offer frame queue ++ frames ≡ drop excess (queue ++ frame ∷ frames) = rw (
        offer-drop frame queue h,
        append_assoc (drop excess queue) (frame ∷ []) frames,
        drop-append_le excess queue (frame ∷ frames) (omega arith),
      ) in
      let whole = queue ++ frame ∷ frames in
      let count : excess + (length whole - excess - queue_max) ≡ length whole - queue_max =
        omega (arith, length-append queue (frame ∷ frames)) in
      next
      ∙ (rw
          (
            moved,
            length-drop excess whole,
            drop-drop (length whole - excess - queue_max) excess whole,
          )
          (ap (λ k. drop k whole) count))
