-- ===== src/WsServer/Manager.antt =====
-- connection_manager.py, `ConnectionManager`: the connections and the relays of their channels.
-- What a method does under one lock is one function, and the method calls these in order; the
-- sockets themselves are a parameter where a send can fail.
use hackathon_nu.Base.{
  ℕ, Bool, true, false, not, ◌&&◌, ◌||◌, Option, none, some, List, [], ◌∷◌, ◌++◌, map, length,
  nat_eq, string_eq, ◌==◌, String, ltb, if◌then◌else◌,
}
use hackathon_nu.Base.Dict.{Dict, get, put, pop, has}
use hackathon_nu.Base.Results.{Result, ok, err, Error, key_error}
use hackathon_nu.WsServer.Relay.{ChannelRelay, new_relay, add_client, remove_client, shutdown_relay}
pub mod Limit
pub mod Leaving

-- A WebSocket is its `id`, so `_ws_refs` maps an id to itself; `ws_states` has `pong_received`.
pub record ConnectionManager (P : Type 0) : Type 0 where
  pub max_connections : ℕ
  pub relays : Dict String (ChannelRelay P)
  pub connections : Dict ℕ (List String)
  pub ws_refs : Dict ℕ ℕ
  pub ws_states : Dict ℕ Bool
  pub heartbeat : Bool

abbrev contains : String → List String → Bool
contains channel [] = false
contains channel (c ∷ channels) = c == channel || contains channel channels

-- set.add
abbrev pub add_channel : String → List String → List String
add_channel channel channels =
    if contains channel channels then channels else channels ++ channel ∷ []

abbrev pub or_empty : Option (List String) → List String
or_empty none = []
or_empty (some channels) = channels

-- One client of a round of `_heartbeat_loop`: whether it is stale, and the states. A client
-- without a state is pinged.
abbrev pub ping : (ℕ → Bool) → ℕ → Option Bool → Dict ℕ Bool → Bool × Dict ℕ Bool
ping sends ws_id (some false) states = (true, states)
ping sends ws_id (some true) states = (not (sends ws_id), put ws_id false states)
ping sends ws_id none states = (not (sends ws_id), states)

unfoldable pub ping_all : (ℕ → Bool) → Dict ℕ ℕ → Dict ℕ Bool → List ℕ × Dict ℕ Bool
ping_all sends [] states = ([], states)
ping_all sends ((ws_id, ws) ∷ items) states =
    let this = ping sends ws_id (get ws_id states) states in
    let rest = ping_all sends items this.1 in (if this.0 then ws ∷ rest.0 else rest.0, rest.1)

module _ {P : Type 0} where
  unfoldable pub new_manager : ℕ → ConnectionManager P
  new_manager max_connections = record {
    max_connections = max_connections;
    relays = [];
    connections = [];
    ws_refs = [];
    ws_states = [];
    heartbeat = false;
  }

  unfoldable pub start : ConnectionManager P → ConnectionManager P
  start m = record m { heartbeat = true }

  -- False, with the socket closed by 1013, at the limit.
  unfoldable pub accept : ℕ → ConnectionManager P → Bool × ConnectionManager P
  accept ws_id m = if not (ltb (length m.connections) m.max_connections) then (false, m) else (
    true,
    record m {
      connections = put ws_id [] m.connections;
      ws_refs = put ws_id ws_id m.ws_refs;
      ws_states = put ws_id true m.ws_states;
    },
  )

  -- `subscribe` under the lock
  unfoldable pub register : ℕ → String → Option String → ConnectionManager P → ConnectionManager P
  register ws_id channel envelope_type m = record m {
    relays =
        if has channel m.relays
        then m.relays
        else put channel (new_relay channel envelope_type) m.relays;
    connections =
        put ws_id (add_channel channel (or_empty (get ws_id m.connections))) m.connections;
  }

  abbrev join_relay :
      ℕ
      → String
      → Option String
      → Option (ChannelRelay P)
      → ConnectionManager P
      → Result (ConnectionManager P)
  join_relay ws_id channel filter_loco_id none m = err key_error
  join_relay ws_id channel filter_loco_id (some relay) m =
      ok (record m { relays = put channel (add_client ws_id filter_loco_id relay) m.relays })

  -- `self._relays[channel].add_client(...)` past the lock
  unfoldable pub join :
      ℕ → String → Option String → ConnectionManager P → Result (ConnectionManager P)
  join ws_id channel filter_loco_id m =
      join_relay ws_id channel filter_loco_id (get channel m.relays) m

  unfoldable pub subscribe :
      ℕ
      → String
      → Option String
      → Option String
      → ConnectionManager P
      → Result (ConnectionManager P)
  unfolding register join
  subscribe ws_id channel filter_loco_id envelope_type m =
      join ws_id channel filter_loco_id (register ws_id channel envelope_type m)

  unfoldable pub mark_pong : ℕ → ConnectionManager P → ConnectionManager P
  mark_pong ws_id m =
      if has ws_id m.ws_states then record m { ws_states = put ws_id true m.ws_states } else m

  -- `disconnect` under the lock; the channels that are left to leave.
  unfoldable pub unregister : ℕ → ConnectionManager P → List String × ConnectionManager P
  unregister ws_id m = (
    or_empty (get ws_id m.connections),
    record m {
      connections = pop ws_id m.connections;
      ws_refs = pop ws_id m.ws_refs;
      ws_states = pop ws_id m.ws_states;
    },
  )

  abbrev pub leave_relay :
      ℕ
      → String
      → Option (ChannelRelay P)
      → Dict String (ChannelRelay P)
      → Dict String (ChannelRelay P)
  leave_relay ws_id channel none relays = relays
  leave_relay ws_id channel (some relay) relays =
      let out = remove_client ws_id relay in
      if out.0 == 0 then pop channel relays else put channel out.1 relays

  -- The body of the loop of `disconnect`.
  abbrev pub leave : ℕ → String → Dict String (ChannelRelay P) → Dict String (ChannelRelay P)
  leave ws_id channel relays = leave_relay ws_id channel (get channel relays) relays

  unfoldable pub leave_all :
      ℕ → List String → Dict String (ChannelRelay P) → Dict String (ChannelRelay P)
  leave_all ws_id [] relays = relays
  leave_all ws_id (channel ∷ channels) relays =
      leave_all ws_id channels (leave ws_id channel relays)

  unfoldable pub disconnect : ℕ → ConnectionManager P → ConnectionManager P
  unfolding unregister leave_all
  disconnect ws_id m =
      let out = unregister ws_id m in
      let m' = out.1 in record m' { relays = leave_all ws_id out.0 m'.relays }

  -- The relays it returns are shut down, each by `shutdown_relay`.
  unfoldable pub shutdown : ConnectionManager P → List (ChannelRelay P) × ConnectionManager P
  unfolding shutdown_relay
  shutdown m = (
    map (λ p. shutdown_relay p.1) m.relays,
    record m { relays = []; connections = []; ws_refs = []; heartbeat = false },
  )

  unfoldable pub evict_all : List ℕ → ConnectionManager P → ConnectionManager P
  unfolding disconnect
  evict_all [] m = m
  evict_all (ws ∷ stale) m = evict_all stale (disconnect ws m)

  -- A round, where `sends` says which sockets take the ping.
  unfoldable pub heartbeat_round : (ℕ → Bool) → ConnectionManager P → ConnectionManager P
  unfolding ping_all evict_all
  heartbeat_round sends m =
      let out = ping_all sends m.ws_refs m.ws_states in
      evict_all out.0 (record m { ws_states = out.1 })
