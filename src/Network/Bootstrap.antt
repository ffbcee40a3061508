-- ===== src/Network/Bootstrap.antt =====
-- pkg/p2p/host.go: how NewNode ends.
use zkrollup_go.Base.{
  ◌≡◌, ◌⊎◌, inl, inr, List, [], ◌∷◌, none, some, String, Bool, true, false, lookup, All, string_eq,
  Bool-cases, Option-cases, arith,
}
use zkrollup_go.Base.Int.{ℤ}
use zkrollup_go.Outcome.{
  Outcome, ok, err, panic, invalid_address, host_failed, dht_failed, bootstrap_failed,
}
use zkrollup_go.Network.{
  Node, by_default, has_handlers, install, register_default_protocol_handlers,
  transaction_protocol_id, batch_protocol_id, consensus_protocol_id,
}
use zkrollup_go.Network.Discovery.{Libp2p, AddrInfo, bootstrap_peer, bootstrap_peers, new_node}
use zkrollup_go.Network.Peers.{IsConnected, add_connected-IsConnected, add_connected_keeps}

module _ (lib : Libp2p) where
  -- What a bootstrap address has come to: it is no address, names no peer, or the peer is connected
  -- or cannot be connected to.
  abbrev pub IsTried : List String → String → Type 0
  IsTried connected addr =
      (lib.is_multiaddr addr ≡ false)
      ⊎ (lib.info addr ≡ none)
      ⊎ ((info : AddrInfo) × (lib.info addr ≡ some info)
          × (IsConnected info.id connected ⊎ (lib.connects info ≡ false)))

  IsTried-keeps :
      (peers more : List String) (addr : String)
      → ((id : String) → IsConnected id peers → IsConnected id more)
      → IsTried peers addr
      → IsTried more addr
  IsTried-keeps peers more addr keeps (inl e) = inl e
  IsTried-keeps peers more addr keeps (inr (inl e)) = inr (inl e)
  IsTried-keeps peers more addr keeps (inr (inr (info, e, inl c))) =
      inr (inr (info, e, inl (keeps info.id c)))
  IsTried-keeps peers more addr keeps (inr (inr (info, e, inr f))) = inr (inr (info, e, inr f))

  bootstrap_peer_keeps :
      (addr id : String) (connected : List String)
      → IsConnected id connected
      → IsConnected id (bootstrap_peer lib addr connected)
  unfolding bootstrap_peer
  bootstrap_peer_keeps addr id connected h = grind (arith, add_connected_keeps)

  bootstrap_peer-IsTried :
      (addr : String) (connected : List String) → IsTried (bootstrap_peer lib addr connected) addr
  unfolding bootstrap_peer
  bootstrap_peer-IsTried addr connected = elim (Bool-cases (lib.is_multiaddr addr)) [
    | inr bad ↦ inl bad
    | inl valid ↦ elim (Option-cases (lib.info addr)) [
      | inl nobody ↦ inr (inl nobody)
      | inr (info, e) ↦ elim (Bool-cases (lib.connects info)) [
        | inr fails ↦ inr (inr (info, e, inr fails))
        | inl connects ↦ inr (
            inr (
              info,
              e,
              inl (rw (valid, e, connects) (add_connected-IsConnected info.id connected)),
            ))
      ]
    ]
  ]

  bootstrap_peers_lem :
      (addrs : List String) (connected : List String)
      → All (IsTried (bootstrap_peers lib addrs connected)) addrs
        × ((id : String)
            → IsConnected id connected
            → IsConnected id (bootstrap_peers lib addrs connected))
  unfolding bootstrap_peers
  bootstrap_peers_lem [] connected = (tt, λ id h. h)
  bootstrap_peers_lem (addr ∷ rest) connected =
      let (tried, keeps) = bootstrap_peers_lem rest (bootstrap_peer lib addr connected) in
      (
        (IsTried-keeps _ _ addr keeps (bootstrap_peer-IsTried addr connected), tried),
        λ id h. keeps id (bootstrap_peer_keeps addr id connected h),
      )

  -- How NewNode ends: with a node that tried every bootstrap address and serves the three protocols,
  -- or with an error and no host left open.
  abbrev pub Starts : {S : Type 0} → List String → Outcome Bool (Node S) → Type 0
  Starts bootstrap (ok n held) =
      (held ≡ true)
      × All (IsTried n.connected) bootstrap
      × (lookup transaction_protocol_id n.stream_handlers ≡ some by_default)
      × (lookup batch_protocol_id n.stream_handlers ≡ some by_default)
      × (lookup consensus_protocol_id n.stream_handlers ≡ some by_default)
      × (has_handlers n.handlers ≡ false)
  Starts bootstrap (err e held) =
      (held ≡ false)
      × ((e ≡ invalid_address)
          ⊎ (e ≡ host_failed)
          ⊎ (e ≡ dht_failed) × (lib.has_dht ≡ false)
          ⊎ (e ≡ bootstrap_failed) × (lib.bootstraps ≡ false))
  Starts bootstrap panic = ⊥

  pub new_node-Starts :
      (S : Type 0) (port : ℤ) (bootstrap : List String)
      → Starts {S = S} bootstrap (new_node lib port bootstrap false)
  unfolding new_node register_default_protocol_handlers install has_handlers
  new_node-Starts S port bootstrap = ground (arith, bootstrap_peers_lem bootstrap [])
