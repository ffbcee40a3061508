-- ===== src/Network/Peers.antt =====
-- pkg/p2p/host.go: whom a node that looks for peers is connected to.
use zkrollup_go.Base.{
  ◌≡◌, refl, ◌∙◌, ◌⊎◌, inl, inr, List, [], ◌∷◌, ◌++◌, none, some, String, true, false, ◌||◌, lookup,
  lookup-insert, All, string_eq, ◌==◌, eqb_refl, Bool-cases, arith,
}
use zkrollup_go.Network.{Node}
use zkrollup_go.Network.Discovery.{
  Libp2p, AddrInfo, is_connected, add_connected, discover_peer, discover_all, discovery,
}

abbrev pub IsConnected : String → List String → Type 0
IsConnected id peers = is_connected id peers ≡ true

is_connected-append :
    (id : String) (xs ys : List String)
    → is_connected id (xs ++ ys) ≡ (is_connected id xs || is_connected id ys)
unfolding is_connected
is_connected-append id [] ys = refl
is_connected-append id (x ∷ xs) ys = ground (arith, is_connected-append id xs ys)

pub add_connected-IsConnected :
    (id : String) (peers : List String) → IsConnected id (add_connected id peers)
unfolding is_connected
add_connected-IsConnected id peers =
    ground (arith, is_connected-append id peers (id ∷ []), eqb_refl id)

pub add_connected_keeps :
    (id other : String) (peers : List String)
    → IsConnected other peers
    → IsConnected other (add_connected id peers)
unfolding is_connected
add_connected_keeps id other peers h = ground (arith, is_connected-append other peers (id ∷ []))

module _ (lib : Libp2p) where
  -- The peer is the node itself, or is connected, or could not be connected to.
  abbrev pub IsSettled : String → List String → AddrInfo → Type 0
  IsSettled self peers info =
      (info.id ≡ self) ⊎ IsConnected info.id peers ⊎ (lib.connects info ≡ false)

  IsSettled-keeps :
      (self : String) (peers more : List String) (info : AddrInfo)
      → ((id : String) → IsConnected id peers → IsConnected id more)
      → IsSettled self peers info
      → IsSettled self more info
  IsSettled-keeps self peers more info keeps (inl e) = inl e
  IsSettled-keeps self peers more info keeps (inr (inl c)) = inr (inl (keeps info.id c))
  IsSettled-keeps self peers more info keeps (inr (inr f)) = inr (inr f)

  -- What a turn of the discovery has done to a node.
  pub record Discovers {S : Type 0} (found : List AddrInfo) (n n' : Node S) : Type 0 where
    pub settled : All (IsSettled n.id n'.connected) found
    pub kept : (id : String) → IsConnected id n.connected → IsConnected id n'.connected
    pub same_id : n'.id ≡ n.id
    pub not_itself : lookup n.id n.peers ≡ none → lookup n.id n'.peers ≡ none
    pub same_handlers : n'.handlers ≡ n.handlers
    pub same_streams : n'.stream_handlers ≡ n.stream_handlers

  module _ {S : Type 0} where
    unchanged :
        (info : AddrInfo) (n : Node S) → IsSettled n.id n.connected info → Discovers (info ∷ []) n n
    unchanged info n h = record {
      settled = (h, tt);
      kept = λ id h. h;
      same_id = refl;
      not_itself = λ h. h;
      same_handlers = refl;
      same_streams = refl;
    }

    discover_peer_lem :
        (info : AddrInfo) (n : Node S) → Discovers (info ∷ []) n (discover_peer lib info n)
    unfolding discover_peer
    discover_peer_lem info n = elim (Bool-cases (info.id == n.id)) [
      | inl self ↦
          rw (discover_peer, self)
            (unchanged info n (inl ((string_eq.eqb_iff info.id n.id).0 self)))
      | inr other ↦ elim (Bool-cases (is_connected info.id n.connected)) [
        | inl known ↦ rw (discover_peer, other, known) (unchanged info n (inr (inl known)))
        | inr new ↦ elim (Bool-cases (lib.connects info)) [
          | inl connects ↦
              rw (discover_peer, other, new, connects)
                (record {
                  settled = (
                    inr (
                        inl (
                          rw (new, add_connected) at
                            (add_connected-IsConnected info.id n.connected))),
                    tt,
                  );
                  kept = λ id h.
                      rw (new, add_connected) at (add_connected_keeps info.id id n.connected h);
                  same_id = refl;
                  not_itself = λ h. rw (lookup-insert, other) h;
                  same_handlers = refl;
                  same_streams = refl;
                })
          | inr fails ↦
              rw (discover_peer, other, new, fails)
                (record {
                  settled = (inr (inr fails), tt);
                  kept = λ id h. h;
                  same_id = refl;
                  not_itself = λ h. rw (lookup-insert, other) h;
                  same_handlers = refl;
                  same_streams = refl;
                })
        ]
      ]
    ]

    Discovers-cons :
        (info : AddrInfo) (rest : List AddrInfo) (n m k : Node S)
        → Discovers (info ∷ []) n m
        → Discovers rest m k
        → Discovers (info ∷ rest) n k
    Discovers-cons info rest n m k h g = record {
      settled = (
        IsSettled-keeps n.id m.connected k.connected info g.kept h.settled.0,
        rw (h.same_id) at g.settled,
      );
      kept = λ id c. g.kept id (h.kept id c);
      same_id = g.same_id ∙ h.same_id;
      not_itself =
          λ none_yet. rw (← h.same_id) (g.not_itself (rw (h.same_id) (h.not_itself none_yet)));
      same_handlers = g.same_handlers ∙ h.same_handlers;
      same_streams = g.same_streams ∙ h.same_streams;
    }

    discover_all_lem :
        (found : List AddrInfo) (n : Node S) → Discovers found n (discover_all lib found n)
    unfolding discover_all
    discover_all_lem [] n = record {
      settled = tt;
      kept = λ id h. h;
      same_id = refl;
      not_itself = λ h. h;
      same_handlers = refl;
      same_streams = refl;
    }
    discover_all_lem (info ∷ rest) n =
        Discovers-cons info rest n (discover_peer lib info n) _ (discover_peer_lem info n)
          (discover_all_lem rest (discover_peer lib info n))

    -- A turn of the discovery tries every peer that was found: each but the node itself is connected
    -- at its end or could not be connected to. No connection is lost, the node does not take itself
    -- for a peer, and it serves the same protocols with the same handlers.
    pub discovery-Discovers :
        (found : List AddrInfo) (n : Node S) → Discovers found n (discovery lib (some found) n)
    unfolding discovery
    discovery-Discovers found n = discover_all_lem found n
