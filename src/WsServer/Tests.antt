-- ===== src/WsServer/Tests.antt =====
-- The theorems on the WebSocket server, at two clients of one channel.
use mathlib.Core.Option
use hackathon_nu.Base.{
  ℕ, ◌≡◌, refl, arith, true, false, none, some, [], ◌∷◌, nat_eq, string_eq, String,
}
use hackathon_nu.Base.Dict.{get, has, put, pop}
use hackathon_nu.WsServer.Queue.Window.{offer_all, latest_frames, offer_all-latest_frames}
use hackathon_nu.WsServer.Relay.{add_client, new_relay, ChannelRelay, Wire, fan_out, frame_of}
use hackathon_nu.WsServer.Relay.Fanout.{
  IsDict, received, AreBounded, get-fan_out, fan_out-AreBounded,
}
use hackathon_nu.WsServer.Manager.{
  ConnectionManager, new_manager, accept, subscribe, register, join, disconnect, or_empty,
}
use hackathon_nu.WsServer.Manager.Limit.{
  accepted, subscribed, disconnected, fresh, next, IsWithin, Reachable-IsWithin,
}
use hackathon_nu.WsServer.Manager.Leaving.{is_left, IsLeft, disconnect-IsLeft}
use hackathon_nu.WsServer.Handler.{open_socket, closed, subscribe_live, subscribe_fleet, ticket_key}
use hackathon_nu.Base.Results.{ok}
use hackathon_nu.WsServer.Handler.Tickets.{open_socket_once}

-- A message is the text of its locomotive, and so is a frame.
abbrev wire : Wire String String
wire = record { decode = λ raw. some raw; loco_of = λ m. some m; envelope = λ kind m. m }

abbrev relay : ChannelRelay String
relay = record {
  channel = "alerts:live";
  envelope_type = some "alert";
  clients =
      (1, record { queue = []; filter_loco_id = some "A" })
      ∷ (2, record { queue = []; filter_loco_id = some "B" })
      ∷ [];
  listening = true;
}

offer_all-latest_frames_example :
    offer_all {A = ℕ} (4 ∷ 5 ∷ []) (3 ∷ []) ≡ latest_frames (3 ∷ 4 ∷ 5 ∷ [])
offer_all-latest_frames_example =
    offer_all-latest_frames {A = ℕ} (4 ∷ 5 ∷ []) (3 ∷ []) (omega arith)

is_dict : IsDict wire (wire.decode "A")
is_dict m h = (m, refl)

get-fan_out_example :
    ((fan_out wire "A" relay).0 ≡ none)
    × (get 2 (fan_out wire "A" relay).1.clients
        ≡ Option.map
            (received wire (frame_of wire (some "alert") "A") (some "A"))
            (get 2 relay.clients))
get-fan_out_example = get-fan_out wire "A" relay 2 is_dict

fan_out-AreBounded_example : AreBounded (fan_out wire "A" relay).1.clients
fan_out-AreBounded_example = fan_out-AreBounded wire "A" relay (omega arith, (omega arith, tt))

abbrev crowded : ConnectionManager String
crowded = (accept 2 (accept 1 (new_manager 1)).1).1

-- Client 1 was evicted when it subscribes, and client 2 has its place.
abbrev evicted : ConnectionManager String
evicted = (accept 2 (disconnect 1 (accept 1 (new_manager 1)).1)).1

abbrev past_limit : ConnectionManager String
past_limit = record evicted {
  relays =
      (
        "alerts:live",
        record {
          channel = "alerts:live";
          envelope_type = none;
          clients = (1, record { queue = []; filter_loco_id = none }) ∷ [];
          listening = true;
        },
      )
      ∷ [];
  connections = (2, []) ∷ (1, "alerts:live" ∷ []) ∷ [];
}

late_subscribe : subscribe 1 "alerts:live" none none evicted ≡ ok past_limit
unfolding subscribe join register accept disconnect new_manager get has pop put add_client new_relay
late_subscribe = refl

Reachable-IsWithin_example : IsWithin 1 1 past_limit
unfolding has accept disconnect pop new_manager put
Reachable-IsWithin_example = Reachable-IsWithin 1 1 (
    next 0 true evicted past_limit
      (next 0 false (disconnect 1 (accept 1 (new_manager 1)).1) evicted
        (next 0 false (accept 1 (new_manager 1)).1 (disconnect 1 (accept 1 (new_manager 1)).1)
          (next 0 false (new_manager 1) (accept 1 (new_manager 1)).1 fresh
            (accepted 1 (new_manager 1)))
          (disconnected 1 (accept 1 (new_manager 1)).1))
        (accepted 2 (disconnect 1 (accept 1 (new_manager 1)).1)))
      (subscribed 1 "alerts:live" none none evicted past_limit late_subscribe))

abbrev two_clients : ConnectionManager String
two_clients = record {
  max_connections = 5;
  relays = ("alerts:live", relay) ∷ [];
  connections = (1, "alerts:live" ∷ []) ∷ (2, "alerts:live" ∷ []) ∷ [];
  ws_refs = (1, 1) ∷ (2, 2) ∷ [];
  ws_states = (1, true) ∷ (2, true) ∷ [];
  heartbeat = true;
}

disconnect-IsLeft_example :
    (get 1 (disconnect 1 two_clients).connections ≡ none)
    × (get 1 (disconnect 1 two_clients).ws_refs ≡ none)
    × (get 1 (disconnect 1 two_clients).ws_states ≡ none)
    × IsLeft 1
        (is_left "alerts:live" (or_empty (get 1 two_clients.connections)))
        (get "alerts:live" two_clients.relays)
        (get "alerts:live" (disconnect 1 two_clients).relays)
disconnect-IsLeft_example = disconnect-IsLeft 1 "alerts:live" two_clients

open_socket_once_example :
    open_socket
      (λ text. ok text)
      2
      (subscribe_fleet 2)
      (some "t")
      (open_socket
        (λ text. ok text)
        1
        (subscribe_live 1 "A")
        (some "t")
        ((ticket_key "t", "user") ∷ [])
        (some (new_manager {P = String} 5))).store
      (some crowded)
    ≡ record {
      opening = closed 4401;
      store = pop (ticket_key "t") (pop (ticket_key "t") ((ticket_key "t", "user") ∷ []));
      manager = some crowded;
    }
open_socket_once_example =
    open_socket_once (λ text. ok text) 1 2 (subscribe_live 1 "A") (subscribe_fleet 2) "t"
      ((ticket_key "t", "user") ∷ []) (new_manager 5) crowded
