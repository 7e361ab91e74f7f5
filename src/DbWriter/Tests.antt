-- ===== src/DbWriter/Tests.antt =====
-- The theorems on the consumer, at a batch of two rows that are their own keys.
use hackathon_nu.Base.{ℕ, ◌≡◌, refl, arith, true, nat_beq, some, List, [], ◌∷◌, All}
use hackathon_nu.Base.Results.{ok}
use hackathon_nu.DbWriter.Consumer.{Codec, Consumer, work, write_rows, to_tuples, xack}
use hackathon_nu.DbWriter.Delivery.{
  IsReflexive, IsStored, Delivered, work-Delivered, work-acknowledges,
}

abbrev codec : Codec ℕ ℕ ℕ
codec = record { decode = λ raw. ok (raw ∷ []); to_tuple = λ r. ok r; conflicts = nat_beq }

abbrev waiting : Consumer ℕ ℕ ℕ
waiting = record {
  unread = [];
  pending = (1, some 10) ∷ (2, some 20) ∷ [];
  queue = (1 ∷ 2 ∷ [], 10 ∷ 20 ∷ []) ∷ [];
  table = 10 ∷ [];
}

reflexive : IsReflexive codec
reflexive t = ground arith

converted : to_tuples codec (10 ∷ 20 ∷ []) ≡ ok (10 ∷ 20 ∷ [])
unfolding to_tuples
converted = refl

work-Delivered_example :
    (c' : Consumer ℕ ℕ ℕ) × (work codec (λ chunk. true) 1 waiting ≡ some c')
    × (c'.queue ≡ [])
    × Delivered codec
        (1 ∷ 2 ∷ [])
        (10 ∷ 20 ∷ [])
        waiting
        c'
        (write_rows codec (λ chunk. true) 1 (10 ∷ 20 ∷ []) waiting.table).0
work-Delivered_example =
    work-Delivered codec (λ chunk. true) 1 (1 ∷ 2 ∷ []) (10 ∷ 20 ∷ []) [] (10 ∷ 20 ∷ []) waiting
      reflexive refl converted

commits_all : (chunk : List ℕ) → true ≡ true
commits_all chunk = refl

work-acknowledges_example :
    (c' : Consumer ℕ ℕ ℕ) × (work codec (λ chunk. true) 1 waiting ≡ some c')
    × (c'.pending ≡ xack (1 ∷ 2 ∷ []) waiting.pending)
    × All (IsStored codec c'.table) (10 ∷ 20 ∷ [])
work-acknowledges_example =
    work-acknowledges codec (λ chunk. true) 0 (1 ∷ 2 ∷ []) (10 ∷ 20 ∷ []) [] (10 ∷ 20 ∷ []) waiting
      reflexive commits_all refl converted
