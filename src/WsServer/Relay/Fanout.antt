-- ===== src/WsServer/Relay/Fanout.antt =====
-- Who gets a message of a channel.
use hackathon_nu.Base.{
  ℕ, ◌≤◌, ◌≡◌, refl, arith, inl, inr, Bool, true, false, Bool-cases, Option-cases, if◌then◌else◌,
  Option, none, some, [], ◌∷◌, length, nat_eq, string_eq, ◌==◌, String, All,
}
use hackathon_nu.Base.Dict.{Dict, get}
use mathlib.Core.Option
use hackathon_nu.WsServer.Queue.{queue_max}
use hackathon_nu.WsServer.Queue.Window.{length-offer}
use hackathon_nu.WsServer.Relay.{
  ClientSlot, ChannelRelay, Wire, filter_of, deliver, frame_of, passes, visit, visit_all, fan_out,
}

-- A client with this filter gets a message that decodes to `parsed`: it has no filter, the message
-- is not decoded, or the locomotives agree.
abbrev pub receives : {P M : Type 0} → Wire P M → Option M → Option String → Bool
receives wire none o = true
receives wire (some parsed) none = true
receives wire (some parsed) (some wanted) = elim (wire.loco_of parsed) [
  | none ↦ false
  | some loco ↦ loco == wanted
]

-- The slot after the message.
abbrev pub received : {P M : Type 0} → Wire P M → P → Option M → ClientSlot P → ClientSlot P
received wire frame parsed slot =
    if receives wire parsed (filter_of slot) then deliver frame slot else slot

abbrev pub AreBounded : {P : Type 0} → Dict ℕ (ClientSlot P) → Type 0
AreBounded = All (λ p. length p.1.queue ≤ queue_max)

received_bounded :
    {P : Type 0} (b : Bool) (frame : P) (slot : ClientSlot P)
    → length slot.queue ≤ queue_max
    → length (if b then deliver frame slot else slot).queue ≤ queue_max
received_bounded true frame slot h = length-offer frame slot.queue h
received_bounded false frame slot h = h

visit_total :
    {P : Type 0} (frame : P) (b : Bool) (slot : ClientSlot P)
    → (slot' : ClientSlot P) × (visit frame (some b) slot ≡ some slot')
visit_total frame true slot = (_, refl)
visit_total frame false slot = (_, refl)

module _ {P M : Type 0} where
  -- A decoded message is a dict.
  abbrev pub IsDict : Wire P M → Option M → Type 0
  IsDict wire parsed = (m : M) → parsed ≡ some m → (loco : String) × (wire.loco_of m ≡ some loco)

  passes_total :
      (wire : Wire P M) (parsed : Option M) (o : Option String)
      → IsDict wire parsed
      → (b : Bool) × (passes o parsed wire ≡ some b)
  passes_total wire parsed none h = (true, refl)
  passes_total wire none (some wanted) h = (true, refl)
  passes_total wire (some m) (some wanted) h = let (loco, e) = h m refl in (loco == wanted, rw e)

  visit_all_total :
      (wire : Wire P M) (frame : P) (parsed : Option M) (slots : Dict ℕ (ClientSlot P))
      → IsDict wire parsed
      → (visit_all wire frame parsed slots).0 ≡ none
  unfolding visit_all
  visit_all_total wire frame parsed [] h = refl
  visit_all_total wire frame parsed ((j, slot) ∷ slots) h =
      let (b, e) = passes_total wire parsed (filter_of slot) h in
      let (slot', k) = visit_total frame b slot in
      rw (e, k) (visit_all_total wire frame parsed slots h)

  visit-passes :
      (wire : Wire P M) (frame : P) (parsed : Option M) (o : Option String)
      (slot slot' : ClientSlot P)
      → visit frame (passes o parsed wire) slot ≡ some slot'
      → slot' ≡ (if receives wire parsed o then deliver frame slot else slot)
  visit-passes wire frame none none slot slot' h = cc
  visit-passes wire frame (some m) none slot slot' h = cc
  visit-passes wire frame none (some wanted) slot slot' h = cc
  visit-passes wire frame (some m) (some wanted) slot slot' h = ground arith

  get-visit_all :
      (wire : Wire P M) (frame : P) (parsed : Option M) (slots : Dict ℕ (ClientSlot P)) (ws_id : ℕ)
      → (visit_all wire frame parsed slots).0 ≡ none
      → get ws_id (visit_all wire frame parsed slots).1
        ≡ Option.map (received wire frame parsed) (get ws_id slots)
  unfolding visit_all get
  get-visit_all wire frame parsed [] ws_id h = refl
  get-visit_all wire frame parsed ((j, slot) ∷ slots) ws_id h =
      elim (Option-cases (visit frame (passes (filter_of slot) parsed wire) slot)) [
        | inl e ↦ absurd (let raised = rw e at h in cc)
        | inr (slot', e) ↦
            let same = visit-passes wire frame parsed (filter_of slot) slot slot' e in
            let passed = rw e at h in
            let later = get-visit_all wire frame parsed slots ws_id passed in
            elim (Bool-cases (j == ws_id)) [ inl k ↦ rw (e, k, same) | inr k ↦ rw (e, k) later ]
      ]

  visit_all-AreBounded :
      (wire : Wire P M) (frame : P) (parsed : Option M) (slots : Dict ℕ (ClientSlot P))
      → AreBounded slots
      → AreBounded (visit_all wire frame parsed slots).1
  unfolding visit_all
  visit_all-AreBounded wire frame parsed [] h = tt
  visit_all-AreBounded wire frame parsed ((j, slot) ∷ slots) (h, hs) =
      elim (Option-cases (visit frame (passes (filter_of slot) parsed wire) slot)) [
        | inl e ↦ rw e (h, hs)
        | inr (slot', e) ↦
            let same = visit-passes wire frame parsed (filter_of slot) slot slot' e in
            let bounded : length slot'.queue ≤ queue_max =
              rw same (received_bounded (receives wire parsed (filter_of slot)) frame slot h) in
            rw e (bounded, visit_all-AreBounded wire frame parsed slots hs)
      ]

  -- A message that is a dict, or that cannot be decoded, reaches exactly the clients that want it:
  -- nothing is raised, and every client of the channel has its frame in the queue if it has no
  -- filter, the message is not decoded or the locomotives agree, and is as before otherwise. No
  -- client comes or goes.
  pub get-fan_out :
      (wire : Wire P M) (raw : P) (relay : ChannelRelay P) (ws_id : ℕ)
      → IsDict wire (wire.decode raw)
      → ((fan_out wire raw relay).0 ≡ none)
        × (get ws_id (fan_out wire raw relay).1.clients
            ≡ Option.map
                (received wire (frame_of wire relay.envelope_type raw) (wire.decode raw))
                (get ws_id relay.clients))
  unfolding fan_out
  get-fan_out wire raw relay ws_id h =
      let frame = frame_of wire relay.envelope_type raw in
      let quiet = visit_all_total wire frame (wire.decode raw) relay.clients h in
      (quiet, get-visit_all wire frame (wire.decode raw) relay.clients ws_id quiet)

  -- No message, not even one that raises, leaves a client with more than `queue_max` frames.
  pub fan_out-AreBounded :
      (wire : Wire P M) (raw : P) (relay : ChannelRelay P)
      → AreBounded relay.clients
      → AreBounded (fan_out wire raw relay).1.clients
  unfolding fan_out
  fan_out-AreBounded wire raw relay h =
      visit_all-AreBounded wire (frame_of wire relay.envelope_type raw) (wire.decode raw)
        relay.clients h
