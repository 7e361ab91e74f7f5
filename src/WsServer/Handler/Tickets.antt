-- ===== src/WsServer/Handler/Tickets.antt =====
-- A ticket opens one connection at most.
use hackathon_nu.Base.{
  ℕ, ◌≡◌, refl, Bool, true, false, Option, none, some, nat_eq, string_eq, String, ==_refl,
}
use hackathon_nu.Base.Dict.{get, pop, get-pop}
use hackathon_nu.Base.Results.{Result, ok, err}
use hackathon_nu.WsServer.Manager.{ConnectionManager, accept}
use hackathon_nu.WsServer.Handler.{
  TicketStore, closed, ticket_key, load, validate_ticket, joined, accepted, validated, open_socket,
}

module _ {P : Type 0} where
  store_joined :
      (store : TicketStore) (m : ConnectionManager P) (r : Result (ConnectionManager P))
      → (joined store m r).store ≡ store
  store_joined store m (err e) = refl
  store_joined store m (ok m') = refl

  store_accepted :
      (joins : ConnectionManager P → Result (ConnectionManager P)) (store : TicketStore)
      (out : Bool × ConnectionManager P)
      → (accepted joins store out).store ≡ store
  store_accepted joins store (false, m) = refl
  store_accepted joins store (true, m) = store_joined store m (joins m)

  store_validated :
      {U : Type 0} (ws_id : ℕ) (joins : ConnectionManager P → Result (ConnectionManager P))
      (m : ConnectionManager P) (r : Result (Option U)) (store : TicketStore)
      → (validated ws_id joins m (r, store)).store ≡ store
  store_validated ws_id joins m (err e) store = refl
  store_validated ws_id joins m (ok none) store = refl
  store_validated ws_id joins m (ok (some user)) store = store_accepted joins store (accept ws_id m)

  -- Once a ticket has been presented to either endpoint with a manager that is ready, whatever came
  -- of it, a second connection to either endpoint with the same ticket is closed with 4401, and
  -- nothing about the manager changes.
  pub open_socket_once :
      {U : Type 0} (parse : String → Result U) (first second : ℕ)
      (joins joins' : ConnectionManager P → Result (ConnectionManager P)) (ticket : String)
      (store : TicketStore) (m m' : ConnectionManager P)
      → open_socket parse second joins'
          (some ticket)
          (open_socket parse first joins (some ticket) store (some m)).store
          (some m')
        ≡ record {
          opening = closed 4401;
          store = pop (ticket_key ticket) (pop (ticket_key ticket) store);
          manager = some m';
        }
  unfolding open_socket validate_ticket
  open_socket_once parse first second joins joins' ticket store m m' =
      let key = ticket_key ticket in
      rw (
        store_validated first joins m (load parse (get key store)) (pop key store),
        get-pop key key store,
        ==_refl key,
      )
