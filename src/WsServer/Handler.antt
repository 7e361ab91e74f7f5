-- ===== src/WsServer/Handler.antt =====
-- services/ws-server/ws_server/handler.py and shared/shared/ws_ticket.py: the endpoints.
-- `json.loads` is a parameter; the tickets of Redis are a dict, and an expired one is
-- not in it.
use hackathon_nu.Base.{
  ℕ, Bool, true, false, Option, none, some, List, [], ◌∷◌, nat_eq, string_eq, String,
}
use Prim.Native.String.{◌++◌ as str_append}
use hackathon_nu.Base.Dict.{Dict, get, put, pop}
use hackathon_nu.Base.Results.{Result, ok, err, Error, ◌>>=◌}
use hackathon_nu.WsServer.Manager.{ConnectionManager, accept, subscribe, mark_pong, disconnect}
pub mod Tickets

abbrev pub TicketStore : Type 0
TicketStore = Dict String String

-- f"{WS_TICKET_PREFIX}:{ticket}"
unfoldable pub ticket_key : String → String
ticket_key ticket = str_append "ws:ticket:" ticket

-- `create_ticket` with a fresh `ticket`
unfoldable pub create_ticket : String → String → TicketStore → TicketStore
create_ticket ticket user store = put (ticket_key ticket) user store

abbrev pub load : {U : Type 0} → (String → Result U) → Option String → Result (Option U)
load parse none = ok none
load parse (some raw) = do info ← parse raw; ok (some info)

-- GETDEL, then `json.loads`
unfoldable pub validate_ticket :
    {U : Type 0} → (String → Result U) → String → TicketStore → Result (Option U) × TicketStore
validate_ticket parse ticket store =
    (load parse (get (ticket_key ticket) store), pop (ticket_key ticket) store)

-- How the opening of a WebSocket ends: closed with a code, at work, or by an exception.
pub data Opening : Type 0 where
  closed : ℕ → Opening
  live : Opening
  raised : Error → Opening

pub record Opened (P : Type 0) : Type 0 where
  pub opening : Opening
  pub store : TicketStore
  pub manager : Option (ConnectionManager P)

module _ {P : Type 0} where
  -- The channels of a locomotive.
  unfoldable pub subscribe_live : ℕ → String → ConnectionManager P → Result (ConnectionManager P)
  subscribe_live ws_id loco m = do
    m1 ← subscribe ws_id (str_append "telemetry:live:" loco) none (some "telemetry") m
    m2 ← subscribe ws_id "alerts:live" (some loco) (some "alert") m1
    subscribe ws_id (str_append "health:live:" loco) none (some "health") m2

  -- The channels of the fleet.
  unfoldable pub subscribe_fleet : ℕ → ConnectionManager P → Result (ConnectionManager P)
  subscribe_fleet ws_id m = do
    m1 ← subscribe ws_id "fleet:summary" none (some "fleet_summary") m
    subscribe ws_id "fleet:changes" none (some "fleet_changes") m1

  abbrev pub joined : TicketStore → ConnectionManager P → Result (ConnectionManager P) → Opened P
  joined store m (err e) = record { opening = raised e; store = store; manager = some m }
  joined store m (ok m') = record { opening = live; store = store; manager = some m' }

  -- `joins` makes the subscriptions of the endpoint.
  abbrev pub accepted :
      (ConnectionManager P → Result (ConnectionManager P))
      → TicketStore
      → Bool × ConnectionManager P
      → Opened P
  accepted joins store (false, m) = record {
    opening = closed 1013;
    store = store;
    manager = some m;
  }
  accepted joins store (true, m) = joined store m (joins m)

  abbrev pub validated :
      {U : Type 0}
      → ℕ
      → (ConnectionManager P → Result (ConnectionManager P))
      → ConnectionManager P
      → Result (Option U) × TicketStore
      → Opened P
  validated ws_id joins m (err e, store) = record {
    opening = raised e;
    store = store;
    manager = some m;
  }
  validated ws_id joins m (ok none, store) = record {
    opening = closed 4401;
    store = store;
    manager = some m;
  }
  validated ws_id joins m (ok (some user), store) = accepted joins store (accept ws_id m)

  -- What the two endpoints do alike, up to the loop.
  unfoldable pub open_socket :
      {U : Type 0}
      → (String → Result U)
      → ℕ
      → (ConnectionManager P → Result (ConnectionManager P))
      → Option String
      → TicketStore
      → Option (ConnectionManager P)
      → Opened P
  open_socket parse ws_id joins ticket store none = record {
    opening = closed 1011;
    store = store;
    manager = none;
  }
  open_socket parse ws_id joins none store (some m) = record {
    opening = closed 4400;
    store = store;
    manager = some m;
  }
  open_socket parse ws_id joins (some ticket) store (some m) =
      validated ws_id joins m (validate_ticket parse ticket store)

  unfoldable pub ws_live :
      {U : Type 0}
      → (String → Result U)
      → ℕ
      → String
      → Option String
      → TicketStore
      → Option (ConnectionManager P)
      → Opened P
  unfolding open_socket subscribe_live
  ws_live parse ws_id loco ticket store m =
      open_socket parse ws_id (subscribe_live ws_id loco) ticket store m

  unfoldable pub ws_fleet :
      {U : Type 0}
      → (String → Result U)
      → ℕ
      → Option String
      → TicketStore
      → Option (ConnectionManager P)
      → Opened P
  unfolding open_socket subscribe_fleet
  ws_fleet parse ws_id ticket store m =
      open_socket parse ws_id (subscribe_fleet ws_id) ticket store m

  -- The messages up to the one that ends the loop: `is_pong` says what the bytes decode to.
  unfoldable pub receive_all :
      {B : Type 0} → (B → Bool) → ℕ → List (Option B) → ConnectionManager P → ConnectionManager P
  receive_all is_pong ws_id [] m = m
  receive_all is_pong ws_id (none ∷ messages) m = receive_all is_pong ws_id messages m
  receive_all is_pong ws_id (some raw ∷ messages) m =
      receive_all is_pong ws_id messages
        (elim (is_pong raw) [ true ↦ mark_pong ws_id m | false ↦ m ])

  -- The loop of an endpoint with its `finally`.
  unfoldable pub serve :
      {B : Type 0} → (B → Bool) → ℕ → List (Option B) → ConnectionManager P → ConnectionManager P
  unfolding receive_all
  serve is_pong ws_id messages m = disconnect ws_id (receive_all is_pong ws_id messages m)
