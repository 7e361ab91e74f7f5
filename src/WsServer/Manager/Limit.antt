-- ===== src/WsServer/Manager/Limit.antt =====
-- The limit on the connections, in any order of events.
use hackathon_nu.Base.{
  ℕ, suc, ◌+◌, ◌≤◌, ◌≡◌, ◌∙◌, refl, arith, inl, inr, Bool, true, false, not, Option, List, [], ◌∷◌,
  length, nat_eq, string_eq, String, Option-cases,
}
use hackathon_nu.Base.Dict.{Dict, put, get, has, length-put-le, length-put_old, length-pop-le}
use hackathon_nu.Base.Results.{ok}
use hackathon_nu.WsServer.Manager.{
  ConnectionManager, new_manager, start, accept, register, join, add_channel, or_empty, subscribe,
  mark_pong, disconnect, shutdown, ping_all, evict_all, heartbeat_round,
}

-- One more after a late event.
abbrev pub count_late : Bool → ℕ → ℕ
count_late true late = suc late
count_late false late = late

-- A subscription adds a connection only where the client has none.
length-put-late :
    (ws_id : ℕ) (v : List String) (late limit : ℕ) (d : Dict ℕ (List String)) (known : Bool)
    → has ws_id d ≡ known
    → length d ≤ limit + late
    → length (put ws_id v d) ≤ limit + count_late (not known) late
length-put-late ws_id v late limit d true e h = rw (length-put_old ws_id v d e) h
length-put-late ws_id v late limit d false e h = omega (arith, length-put-le ws_id v d, h)

module _ {P : Type 0} where
  -- The events. `subscribe` is also called for a client that was disconnected, evicted by a
  -- heartbeat round for instance, after `accept` let it in; such a call is late.
  pub data Step : Bool → ConnectionManager P → ConnectionManager P → Type 0 where
    started : (m : ConnectionManager P) → Step false m (start m)
    accepted : (ws_id : ℕ) (m : ConnectionManager P) → Step false m (accept ws_id m).1
    subscribed :
        (ws_id : ℕ) (channel : String) (filter_loco_id envelope_type : Option String)
        (m m' : ConnectionManager P)
        → subscribe ws_id channel filter_loco_id envelope_type m ≡ ok m'
        → Step (not (has ws_id m.connections)) m m'
    ponged : (ws_id : ℕ) (m : ConnectionManager P) → Step false m (mark_pong ws_id m)
    disconnected : (ws_id : ℕ) (m : ConnectionManager P) → Step false m (disconnect ws_id m)
    beaten : (sends : ℕ → Bool) (m : ConnectionManager P) → Step false m (heartbeat_round sends m)
    stopped : (m : ConnectionManager P) → Step false m (shutdown m).1

  -- The managers that are reached, with the number of the late calls so far.
  pub data Reachable (limit : ℕ) : ℕ → ConnectionManager P → Type 0 where
    fresh : Reachable limit 0 (new_manager limit)
    next :
        (late : ℕ) (is_late : Bool) (m m' : ConnectionManager P)
        → Reachable limit late m
        → Step is_late m m'
        → Reachable limit (count_late is_late late) m'

  -- The limit is kept, and exceeded by no more than the number of the late calls.
  abbrev pub IsWithin : ℕ → ℕ → ConnectionManager P → Type 0
  IsWithin limit late m = (m.max_connections ≡ limit) × (length m.connections ≤ limit + late)

  evict_all-IsWithin :
      (limit late : ℕ) (stale : List ℕ) (m : ConnectionManager P)
      → IsWithin limit late m
      → IsWithin limit late (evict_all stale m)
  unfolding evict_all disconnect
  evict_all-IsWithin limit late [] m h = h
  evict_all-IsWithin limit late (ws ∷ stale) m (same, h) =
      let fewer = length-pop-le ws m.connections in
      evict_all-IsWithin limit late stale (disconnect ws m) (same, omega arith)

  join-connections :
      (ws_id : ℕ) (channel : String) (o : Option String) (m m' : ConnectionManager P)
      → join ws_id channel o m ≡ ok m'
      → (m'.max_connections ≡ m.max_connections) × (m'.connections ≡ m.connections)
  unfolding join
  join-connections ws_id channel o m m' h = elim (Option-cases (get channel m.relays)) [
    | inl e ↦ let bad = rw e at h in cc
    | inr (relay, e) ↦ let good = rw e at h in (ground arith, ground arith)
  ]

  Step-IsWithin :
      (limit late : ℕ) {is_late : Bool} {m m' : ConnectionManager P}
      → Step is_late m m'
      → IsWithin limit late m
      → IsWithin limit (count_late is_late late) m'
  unfolding start accept subscribe register mark_pong disconnect heartbeat_round shutdown
  Step-IsWithin limit late (started m) h = h
  Step-IsWithin limit late (accepted ws_id m) (same, h) =
      let longer = length-put-le ws_id [] m.connections in ground arith
  Step-IsWithin limit late (subscribed ws_id channel o t m m' e) (same, h) =
      let changed = register ws_id channel t m in
      let (kept, joined) = join-connections ws_id channel o changed m' e in
      let list = add_channel channel (or_empty (get ws_id m.connections)) in
      let size =
        length-put-late ws_id list late limit m.connections (has ws_id m.connections) refl h in
      (kept ∙ same, rw joined size)
  Step-IsWithin limit late (ponged ws_id m) h = ground arith
  Step-IsWithin limit late (disconnected ws_id m) (same, h) =
      let fewer = length-pop-le ws_id m.connections in (same, omega arith)
  Step-IsWithin limit late (beaten sends m) h =
      let out = ping_all sends m.ws_refs m.ws_states in
      evict_all-IsWithin limit late out.0 (record m { ws_states = out.1 }) h
  Step-IsWithin limit late (stopped m) (same, h) = (same, omega arith)

  -- In any order of connections, subscriptions, pongs, disconnections, heartbeat rounds with any
  -- failing sends, and shutdowns, a manager has at most the maximal number of connections that it
  -- was made with, and one more for each subscription so far of a client that had no connection when
  -- it subscribed.
  pub Reachable-IsWithin :
      (limit late : ℕ) {m : ConnectionManager P} → Reachable limit late m → IsWithin limit late m
  unfolding new_manager
  Reachable-IsWithin limit _ fresh = (refl, omega arith)
  Reachable-IsWithin limit _ (next late is_late m m' before step) =
      Step-IsWithin limit late step (Reachable-IsWithin limit late before)
