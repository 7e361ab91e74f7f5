-- ===== src/WsServer/Manager/Leaving.antt =====
-- What `disconnect` leaves of a client.
use hackathon_nu.Base.{
  ℕ, ◌≡◌, ◌∙◌, refl, subst, inl, inr, Bool, true, false, Bool-cases, Option-cases, Option, none,
  some, List, [], ◌∷◌, ◌⊎◌, nat_eq, string_eq, String, ◌==◌, ==_refl, if◌then◌else◌,
}
use hackathon_nu.Base.Dict.{Dict, get, get-put, get-pop}
use hackathon_nu.WsServer.Relay.{ChannelRelay, remove_client}
use hackathon_nu.WsServer.Manager.{ConnectionManager, or_empty, leave, leave_all, disconnect}

abbrev pub is_left : String → List String → Bool
is_left channel [] = false
is_left channel (c ∷ channels) = if c == channel then true else is_left channel channels

module _ {P : Type 0} where
  -- No relay of this channel has the client.
  abbrev pub IsGone : ℕ → Option (ChannelRelay P) → Type 0
  IsGone ws_id none = Unit
  IsGone ws_id (some relay) = get ws_id relay.clients ≡ none

  get-remove_client :
      (ws_id : ℕ) (relay : ChannelRelay P) → get ws_id (remove_client ws_id relay).1.clients ≡ none
  unfolding remove_client
  get-remove_client ws_id relay = rw (get-pop ws_id ws_id relay.clients, ==_refl ws_id)

  get-leave-IsGone :
      (ws_id : ℕ) (channel : String) (relays : Dict String (ChannelRelay P))
      → IsGone ws_id (get channel (leave ws_id channel relays))
  get-leave-IsGone ws_id channel relays = elim (Option-cases (get channel relays)) [
    | inl e ↦ rw (e, e) tt
    | inr (relay, e) ↦ elim (Bool-cases ((remove_client ws_id relay).0 == 0)) [
      | inl k ↦ rw (e, k, get-pop channel channel relays, ==_refl channel) tt
      | inr k ↦
          rw (e, k, get-put channel channel (remove_client ws_id relay).1 relays, ==_refl channel)
            (get-remove_client ws_id relay)
    ]
  ]

  get-leave_other :
      (ws_id : ℕ) (channel other : String) (relays : Dict String (ChannelRelay P))
      → (channel == other) ≡ false
      → get other (leave ws_id channel relays) ≡ get other relays
  get-leave_other ws_id channel other relays h = elim (Option-cases (get channel relays)) [
    | inl e ↦ rw e
    | inr (relay, e) ↦ elim (Bool-cases ((remove_client ws_id relay).0 == 0)) [
      | inl k ↦ rw (e, k, get-pop channel other relays, h)
      | inr k ↦ rw (e, k, get-put channel other (remove_client ws_id relay).1 relays, h)
    ]
  ]

  get-leave_all_other :
      (ws_id : ℕ) (channels : List String) (channel : String)
      (relays : Dict String (ChannelRelay P))
      → is_left channel channels ≡ false
      → get channel (leave_all ws_id channels relays) ≡ get channel relays
  unfolding leave_all
  get-leave_all_other ws_id [] channel relays h = refl
  get-leave_all_other ws_id (c ∷ channels) channel relays h = elim (Bool-cases (c == channel)) [
    | inl e ↦ let bad = rw e at h in cc
    | inr e ↦
        let later = rw e at h in
        get-leave_all_other ws_id channels channel (leave ws_id c relays) later
        ∙ get-leave_other ws_id c channel relays e
  ]

  -- A channel of the list, or one that the client had left before.
  get-leave_all-IsGone :
      (ws_id : ℕ) (channels : List String) (channel : String)
      (relays : Dict String (ChannelRelay P))
      → (is_left channel channels ≡ true) ⊎ IsGone ws_id (get channel relays)
      → IsGone ws_id (get channel (leave_all ws_id channels relays))
  unfolding leave_all
  get-leave_all-IsGone ws_id [] channel relays (inl h) = absurd (cc)
  get-leave_all-IsGone ws_id [] channel relays (inr gone) = gone
  get-leave_all-IsGone ws_id (c ∷ channels) channel relays h =
      get-leave_all-IsGone ws_id channels channel (leave ws_id c relays)
        (elim (Bool-cases (c == channel)) [
          | inl e ↦
              let same = (string_eq.equals_iff c channel).0 e in
              inr (
                subst (λ k. IsGone ws_id (get k (leave ws_id c relays))) same
                  (get-leave-IsGone ws_id c relays))
          | inr e ↦ elim h [
            | inl listed ↦ inl (rw e at listed)
            | inr gone ↦ inr (rw (get-leave_other ws_id c channel relays e) gone)
          ]
        ])

  -- The relay of a channel before and after: without the client if the channel is left, else as it
  -- was.
  abbrev pub IsLeft : ℕ → Bool → Option (ChannelRelay P) → Option (ChannelRelay P) → Type 0
  IsLeft ws_id true before after = IsGone ws_id after
  IsLeft ws_id false before after = after ≡ before

  leave_all-IsLeft :
      (ws_id : ℕ) (channels : List String) (channel : String)
      (relays : Dict String (ChannelRelay P))
      → IsLeft ws_id
          (is_left channel channels)
          (get channel relays)
          (get channel (leave_all ws_id channels relays))
  leave_all-IsLeft ws_id channels channel relays = elim (Bool-cases (is_left channel channels)) [
    | inl e ↦ rw e (get-leave_all-IsGone ws_id channels channel relays (inl e))
    | inr e ↦ rw e (get-leave_all_other ws_id channels channel relays e)
  ]

  -- After `disconnect` the client is in no table of the manager, and of any channel that it was
  -- subscribed to the relay is without it or dropped. The relay of another channel is as before.
  pub disconnect-IsLeft :
      (ws_id : ℕ) (channel : String) (m : ConnectionManager P)
      → (get ws_id (disconnect ws_id m).connections ≡ none)
        × (get ws_id (disconnect ws_id m).ws_refs ≡ none)
        × (get ws_id (disconnect ws_id m).ws_states ≡ none)
        × IsLeft ws_id
            (is_left channel (or_empty (get ws_id m.connections)))
            (get channel m.relays)
            (get channel (disconnect ws_id m).relays)
  unfolding disconnect
  disconnect-IsLeft ws_id channel m = (
    rw (get-pop ws_id ws_id m.connections, ==_refl ws_id),
    rw (get-pop ws_id ws_id m.ws_refs, ==_refl ws_id),
    rw (get-pop ws_id ws_id m.ws_states, ==_refl ws_id),
    leave_all-IsLeft ws_id (or_empty (get ws_id m.connections)) channel m.relays,
  )
