-- ===== src/WsServer/Relay.antt =====
-- connection_manager.py, `_ChannelRelay`: one Redis channel for many clients. A WebSocket is the
-- number `id(ws)`; `ormsgpack` is a parameter; a method is one step, as its lock makes it.
use hackathon_nu.Base.{
  ℕ, Bool, true, false, not, ◌&&◌, ◌||◌, Option, none, some, List, [], ◌∷◌, map, length, nat_eq,
  string_eq, ◌==◌, String, if◌then◌else◌,
}
use hackathon_nu.Base.Dict.{Dict, get, put, pop}
use hackathon_nu.Base.Results.{Error, attribute_error}
use hackathon_nu.WsServer.Queue.{offer}
pub mod Fanout

-- `_ClientSlot`, the sender task apart, which lives as long as the slot.
pub record ClientSlot (P : Type 0) : Type 0 where
  pub queue : List P
  pub filter_loco_id : Option String

pub record ChannelRelay (P : Type 0) : Type 0 where
  pub channel : String
  pub envelope_type : Option String
  pub clients : Dict ℕ (ClientSlot P)
  -- whether `_listener_task` is running
  pub listening : Bool

-- `wire_decode`, none where it raises; `str(parsed_msg.get("locomotive_id", ""))`, none where the
-- message is no dict; `wire_encode` of an envelope.
pub record Wire (P : Type 0) (M : Type 0) : Type 0 where
  pub decode : P → Option M
  pub loco_of : M → Option String
  pub envelope : String → M → P

module _ {P : Type 0} where
  unfoldable pub new_relay : String → Option String → ChannelRelay P
  new_relay channel envelope_type = record {
    channel = channel;
    envelope_type = envelope_type;
    clients = [];
    listening = false;
  }

  unfoldable pub add_client : ℕ → Option String → ChannelRelay P → ChannelRelay P
  add_client ws_id filter_loco_id relay = record relay {
    clients = put ws_id (record { queue = []; filter_loco_id = filter_loco_id }) relay.clients;
    listening = true;
  }

  -- The relay and the remaining count.
  unfoldable pub remove_client : ℕ → ChannelRelay P → ℕ × ChannelRelay P
  remove_client ws_id relay =
      let clients = pop ws_id relay.clients in
      (
        length clients,
        record relay {
          clients = clients;
          listening = if length clients == 0 then false else relay.listening;
        },
      )

  unfoldable pub shutdown_relay : ChannelRelay P → ChannelRelay P
  shutdown_relay relay = record relay { clients = []; listening = false }

  -- `if slot.filter_loco_id`, which an empty text fails
  abbrev pub filter_of : ClientSlot P → Option String
  filter_of slot = elim slot.filter_loco_id [
    | none ↦ none
    | some loco ↦ if loco == "" then none else some loco
  ]

  abbrev pub deliver : P → ClientSlot P → ClientSlot P
  deliver frame slot = record slot { queue = offer frame slot.queue }

  abbrev pub visit : P → Option Bool → ClientSlot P → Option (ClientSlot P)
  visit frame none slot = none
  visit frame (some false) slot = some slot
  visit frame (some true) slot = some (deliver frame slot)

  abbrev pub visit_next :
      ℕ
      → ClientSlot P
      → Dict ℕ (ClientSlot P)
      → Option (ClientSlot P)
      → Option Error × Dict ℕ (ClientSlot P)
      → Option Error × Dict ℕ (ClientSlot P)
  visit_next ws_id slot slots none rest = (some attribute_error, (ws_id, slot) ∷ slots)
  visit_next ws_id slot slots (some slot') rest = (rest.0, (ws_id, slot') ∷ rest.1)

-- `msg_loco != slot.filter_loco_id`, negated
abbrev pub agrees : String → Option String → Option Bool
agrees wanted none = none
agrees wanted (some loco) = some (loco == wanted)

module _ {P M : Type 0} where
  unfoldable pub frame_of : Wire P M → Option String → P → P
  frame_of wire envelope_type raw = elim envelope_type [
    | none ↦ raw
    | some kind ↦
        if kind == ""
        then raw
        else elim (wire.decode raw) [ none ↦ raw | some parsed ↦ wire.envelope kind parsed ]
  ]

  -- The test on the filter of a slot against the locomotive of the message.
  abbrev pub passes : Option String → Option M → Wire P M → Option Bool
  passes none parsed wire = some true
  passes (some wanted) none wire = some true
  passes (some wanted) (some parsed) wire = agrees wanted (wire.loco_of parsed)

  -- The loop over the slots. The slots before an exception keep the frame.
  unfoldable pub visit_all :
      Wire P M → P → Option M → Dict ℕ (ClientSlot P) → Option Error × Dict ℕ (ClientSlot P)
  visit_all wire frame parsed [] = (none, [])
  visit_all wire frame parsed ((ws_id, slot) ∷ slots) =
      let rest = visit_all wire frame parsed slots in
      visit_next ws_id slot slots (visit frame (passes (filter_of slot) parsed wire) slot) rest

  -- A message of the Redis channel.
  unfoldable pub fan_out : Wire P M → P → ChannelRelay P → Option Error × ChannelRelay P
  unfolding visit_all frame_of
  fan_out wire raw relay =
      let frame = frame_of wire relay.envelope_type raw in
      let out = visit_all wire frame (wire.decode raw) relay.clients in
      (out.0, record relay { clients = out.1 })
