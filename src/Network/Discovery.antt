-- ===== src/Network/Discovery.antt =====
-- pkg/p2p/host.go: how a node starts, and how it finds and connects to peers. The answers of libp2p
-- are the parameter `Libp2p`.
use zkrollup_go.Base.{
  List, [], ◌∷◌, ◌++◌, Option, none, some, String, insert, Bool, true, false, not, ◌||◌,
  if◌then◌else◌, string_eq, ◌==◌,
}
use zkrollup_go.Base.Int.{ℤ}
use zkrollup_go.Outcome.{
  M, ok, err, pure, raise, raise_if, or_raise, modify, ◌>>=◌, ◌>>◌, invalid_address,
  peer_info_failed, connect_failed, disconnect_failed, host_failed, dht_failed, bootstrap_failed,
}
use zkrollup_go.Network.{Node, empty_handlers, register_default_protocol_handlers}

-- a `peer.AddrInfo`: the peer's id and its addresses
pub record AddrInfo : Type 0 where
  pub id : String
  pub addrs : List String

-- What libp2p answers: whether a text is a multiaddr, the peer that one names, whether a connection
-- to a peer succeeds, and whether one can be closed.
pub record Libp2p : Type 0 where
  pub is_multiaddr : String → Bool
  pub listen_addr : ℤ → String
  pub info : String → Option AddrInfo
  pub connects : AddrInfo → Bool
  pub closes : String → Bool
  pub host_id : Option String
  pub has_dht : Bool
  pub bootstraps : Bool

-- `Connectedness(id) == network.Connected`
unfoldable pub is_connected : String → List String → Bool
is_connected id [] = false
is_connected id (peer ∷ rest) = peer == id || is_connected id rest

-- what the host does on a connection
abbrev pub add_connected : String → List String → List String
unfolding is_connected
add_connected id peers = if is_connected id peers then peers else peers ++ id ∷ []

-- what the host does on `ClosePeer`
unfoldable pub remove_connected : String → List String → List String
remove_connected id [] = []
remove_connected id (peer ∷ rest) =
    if peer == id then remove_connected id rest else peer ∷ remove_connected id rest

module _ (lib : Libp2p) where
  -- a bootstrap peer that cannot be reached is skipped
  unfoldable pub bootstrap_peer : String → List String → List String
  unfolding is_connected
  bootstrap_peer addr connected =
      if not (lib.is_multiaddr addr) then connected else elim (lib.info addr) [
        | none ↦ connected
        | some info ↦ if lib.connects info then add_connected info.id connected else connected
      ]

  unfoldable pub bootstrap_peers : List String → List String → List String
  unfolding bootstrap_peer
  bootstrap_peers [] connected = connected
  bootstrap_peers (addr ∷ rest) connected = bootstrap_peers rest (bootstrap_peer addr connected)

  abbrev started : {S : Type 0} → List String → String → Node S
  started bootstrap id = record {
    id = id;
    connected = bootstrap_peers bootstrap [];
    peers = [];
    handlers = some empty_handlers;
    stream_handlers = [];
  }

  -- `NewNode`. The state is whether a host is left open.
  unfoldable pub new_node : {S : Type 0} → ℤ → List String → M Bool (Node S)
  unfolding bootstrap_peers register_default_protocol_handlers
  new_node port bootstrap = do
    raise_if (not (lib.is_multiaddr (lib.listen_addr port))) invalid_address
    id ← (λ held. elim lib.host_id [ none ↦ err host_failed held | some id ↦ ok id true ])
    (if lib.has_dht then pure tt else (do modify (λ _. false); raise dht_failed))
    (if lib.bootstraps then pure tt else (do modify (λ _. false); raise bootstrap_failed))
    pure (register_default_protocol_handlers (started bootstrap id))

  module _ {S : Type 0} where
    abbrev pub join : AddrInfo → Node S → Node S
    unfolding is_connected
    join info n = record n { connected = add_connected info.id n.connected }

    -- `Connect`
    unfoldable pub connect : String → M (Node S) (Unit {0})
    connect addr = do
      raise_if (not (lib.is_multiaddr addr)) invalid_address
      info ← or_raise peer_info_failed (lib.info addr)
      raise_if (not (lib.connects info)) connect_failed
      modify (join info)

    -- `Disconnect`
    unfoldable pub disconnect : String → M (Node S) (Unit {0})
    unfolding remove_connected
    disconnect id = do
      raise_if (not (lib.closes id)) disconnect_failed
      modify (λ n. record n { connected = remove_connected id n.connected })

    -- a peer that the discovery found
    unfoldable pub discover_peer : AddrInfo → Node S → Node S
    unfolding is_connected
    discover_peer info n =
        if info.id == n.id || is_connected info.id n.connected
        then n
        else let known : Node S = record n { peers = insert info.id info.addrs n.peers } in
          if lib.connects info then join info known else known

    -- A turn of the loop of setupDiscovery; `none` is an error of `FindPeers`.
    unfoldable pub discover_all : List AddrInfo → Node S → Node S
    unfolding discover_peer
    discover_all [] n = n
    discover_all (info ∷ rest) n = discover_all rest (discover_peer info n)

    unfoldable pub discovery : Option (List AddrInfo) → Node S → Node S
    unfolding discover_all
    discovery none n = n
    discovery (some found) n = discover_all found n
