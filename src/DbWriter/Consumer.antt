-- ===== src/DbWriter/Consumer.antt =====
-- stream_consumer.py, `StreamConsumer`: the reader, the queue and the workers. The rows are of a
-- type `R`; `wire_decode` with the `rows` of the payload, the conversion of a row and the conflict
-- of two rows in the target table are parameters. A transaction may fail at any chunk.
use hackathon_nu.Base.{
  ℕ, zero, suc, Bool, true, false, ◌||◌, Option, none, some, List, [], ◌∷◌, ◌++◌, length, take,
  drop, nat_eq, ◌==◌, if◌then◌else◌,
}
use hackathon_nu.Base.Results.{Result, ok, err}

-- `fields.get(b"d") or fields.get("d")`, then the rows of the payload.
pub record Codec (B : Type 0) (R : Type 0) (T : Type 0) : Type 0 where
  pub decode : B → Result (List R)
  pub to_tuple : R → Result T
  -- ON CONFLICT
  pub conflicts : T → T → Bool

abbrev pub Entry : Type 0 → Type 0
Entry B = ℕ × Option B

-- The queue holds message ids with their rows; `pending` is the PEL of this consumer.
pub record Consumer (B : Type 0) (R : Type 0) (T : Type 0) : Type 0 where
  pub unread : List (Entry B)
  pub pending : List (Entry B)
  pub queue : List (List ℕ × List R)
  pub table : List T

-- `all_rows`, `message_ids` and `poison_ids` of `_enqueue_entries`.
pub record Sorted (R : Type 0) : Type 0 where
  pub rows : List R
  pub message_ids : List ℕ
  pub poison_ids : List ℕ

abbrev pub member : ℕ → List ℕ → Bool
member n [] = false
member n (m ∷ ms) = m == n || member n ms

-- XACK
unfoldable pub xack {ℓ} : {V : Type ℓ} → List ℕ → List (ℕ × V) → List (ℕ × V)
xack ids [] = []
xack ids ((msg_id, v) ∷ pending) =
    let rest = xack ids pending in if member msg_id ids then rest else (msg_id, v) ∷ rest

abbrev pub add_poison : {R : Type 0} → ℕ → Sorted R → Sorted R
add_poison msg_id s = record s { poison_ids = msg_id ∷ s.poison_ids }

abbrev pub add_message : {R : Type 0} → ℕ → Result (List R) → Sorted R → Sorted R
add_message msg_id (err e) s = add_poison msg_id s
add_message msg_id (ok rows) s = record s {
  rows = rows ++ s.rows;
  message_ids = msg_id ∷ s.message_ids;
}

abbrev pub put_batch : {R : Type 0} → Sorted R → List (List ℕ × List R) → List (List ℕ × List R)
put_batch s queue = elim s.message_ids [
  | [] ↦ queue
  | _ ∷ _ ↦ queue ++ (s.message_ids, s.rows) ∷ []
]

-- [self._row_to_tuple(r) for r in rows]
abbrev pub add_tuple : {T : Type 0} → Result T → Result (List T) → Result (List T)
add_tuple (err e) rest = err e
add_tuple (ok t) (err e) = err e
add_tuple (ok t) (ok ts) = ok (t ∷ ts)

abbrev pub commit_next : {T : Type 0} → Bool → (Bool × List T) → List T → Bool × List T
commit_next true rest table = rest
commit_next false rest table = (false, table)

module _ {B R T : Type 0} where
  unfoldable pub sort_entries : Codec B R T → List (Entry B) → Sorted R
  sort_entries codec [] = record { rows = []; message_ids = []; poison_ids = [] }
  sort_entries codec ((msg_id, none) ∷ entries) = add_poison msg_id (sort_entries codec entries)
  sort_entries codec ((msg_id, some raw) ∷ entries) =
      add_message msg_id (codec.decode raw) (sort_entries codec entries)

  unfoldable pub enqueue_entries : Codec B R T → List (Entry B) → Consumer B R T → Consumer B R T
  unfolding sort_entries xack
  enqueue_entries codec entries c =
      let s = sort_entries codec entries in
      record c { pending = xack s.poison_ids c.pending; queue = put_batch s c.queue }

  -- XREADGROUP ">": new messages are delivered and become pending.
  unfoldable pub read_new : Codec B R T → ℕ → Consumer B R T → Consumer B R T
  unfolding enqueue_entries
  read_new codec count c =
      let entries = take count c.unread in
      enqueue_entries codec entries
        (record c { unread = drop count c.unread; pending = c.pending ++ entries })

  -- XREADGROUP "0": one pass of `_drain_pending`, none where nothing is pending.
  unfoldable pub drain_pass : Codec B R T → ℕ → Consumer B R T → Option (Consumer B R T)
  unfolding enqueue_entries
  drain_pass codec count c = elim c.pending [
    | [] ↦ none
    | _ ∷ _ ↦ some (enqueue_entries codec (take count c.pending) c)
  ]

  -- INSERT ... ON CONFLICT DO NOTHING
  abbrev pub has_conflict : Codec B R T → T → List T → Bool
  has_conflict codec t [] = false
  has_conflict codec t (u ∷ table) = codec.conflicts t u || has_conflict codec t table

  unfoldable pub insert_all : Codec B R T → List T → List T → List T
  insert_all codec [] table = table
  insert_all codec (t ∷ ts) table =
      insert_all codec ts (if has_conflict codec t table then table else table ++ t ∷ [])

  unfoldable pub to_tuples : Codec B R T → List R → Result (List T)
  to_tuples codec [] = ok []
  to_tuples codec (r ∷ rows) = add_tuple (codec.to_tuple r) (to_tuples codec rows)

  -- The chunks, each in a transaction that `commits` says succeeds or not; false if one fails.
  -- The fuel bounds the number of chunks.
  unfoldable pub write_chunks :
      Codec B R T → (List T → Bool) → ℕ → ℕ → List T → List T → Bool × List T
  write_chunks codec commits size fuel [] table = (true, table)
  write_chunks codec commits size zero (t ∷ ts) table = (false, table)
  write_chunks codec commits size (suc fuel) (t ∷ ts) table =
      let chunk = take size (t ∷ ts) in
      commit_next (commits chunk)
        (write_chunks codec commits size fuel (drop size (t ∷ ts)) (insert_all codec chunk table))
        table

  abbrev pub write_tuples :
      Codec B R T → (List T → Bool) → ℕ → Result (List T) → List T → Bool × List T
  write_tuples codec commits zero tuples table = (false, table)
  write_tuples codec commits (suc size) (err e) table = (false, table)
  write_tuples codec commits (suc size) (ok ts) table =
      write_chunks codec commits (suc size) (length ts) ts table

  -- `_write_batch` with the chunk size `rows_per_flush`; a size of 0 is the ValueError of `range`.
  unfoldable pub write_batch : Codec B R T → (List T → Bool) → ℕ → List R → List T → Bool × List T
  unfolding write_chunks to_tuples
  write_batch codec commits size rows table =
      write_tuples codec commits size (to_tuples codec rows) table

  -- `if rows: await self._write_batch(...)`
  abbrev pub write_rows : Codec B R T → (List T → Bool) → ℕ → List R → List T → Bool × List T
  write_rows codec commits size [] table = (true, table)
  write_rows codec commits size (r ∷ rows) table = write_batch codec commits size (r ∷ rows) table

  -- After the write: XACK where it has not failed.
  abbrev pub settled :
      List ℕ → List (List ℕ × List R) → Bool × List T → Consumer B R T → Consumer B R T
  settled message_ids queue out c = record c {
    queue = queue;
    table = out.1;
    pending = if out.0 then xack message_ids c.pending else c.pending;
  }

  -- One batch of `_worker_loop`; nothing where the queue is empty and the worker waits.
  unfoldable pub work : Codec B R T → (List T → Bool) → ℕ → Consumer B R T → Option (Consumer B R T)
  unfolding write_batch xack
  work codec commits size c = elim c.queue [
    | [] ↦ none
    | (message_ids, rows) ∷ queue ↦
        some (settled message_ids queue (write_rows codec commits size rows c.table) c)
  ]
