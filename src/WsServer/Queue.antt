-- ===== src/WsServer/Queue.antt =====
-- connection_manager.py, the bounded queue of a client: `asyncio.Queue(maxsize=_QUEUE_MAX)` with
-- the drop of the oldest frame in `_listener_loop`.
pub mod Window
use hackathon_nu.Base.{
  ℕ, Bool, not, Option, none, some, List, [], ◌∷◌, ◌++◌, length, ltb, drop, if◌then◌else◌,
}

-- `_QUEUE_MAX`
abbrev pub queue_max : ℕ
queue_max = 64

abbrev pub is_full {ℓ} : {A : Type ℓ} → List A → Bool
is_full queue = not (ltb (length queue) queue_max)

-- `get_nowait` where the queue is full, then `put_nowait`
unfoldable pub offer {ℓ} : {A : Type ℓ} → A → List A → List A
offer frame queue = (if is_full queue then drop 1 queue else queue) ++ frame ∷ []

-- `queue.get()` of `_sender_loop`: nothing where it waits.
abbrev pub dequeue {ℓ} : {A : Type ℓ} → List A → Option (A × List A)
dequeue [] = none
dequeue (frame ∷ queue) = some (frame, queue)
