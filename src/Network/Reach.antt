-- ===== src/Network/Reach.antt =====
-- pkg/p2p/protocol.go: whom a broadcast reaches, and how often it tries.
use zkrollup_go.Base.{
  ◌≡◌, ◌≢◌, refl, ap, sym, ◌⊎◌, inl, inr, ℕ, suc, ◌+◌, ◌*◌, ◌≤◌, List, [], ◌∷◌, ◌++◌, none, some,
  String, Bool, true, false, ◌&&◌, ◌||◌, nat_eqb, if◌then◌else◌, length, replicate, Bool-cases,
  List-cases, arith,
}
use mathlib.Core.List.{append-nil, append_assoc}
use zkrollup_go.Outcome.{Outcome, ok, err, panic, broadcast_failed}
use zkrollup_go.Network.{Message, Node, get_peers}
use zkrollup_go.Network.Streams.{Codec}
use zkrollup_go.Network.Broadcast.{
  Links, Wire, is_negotiation, open_stream, send, send_all, broadcast,
}

suc-eqb-zero : (k : ℕ) → nat_eqb (suc k) 0 ≡ false
suc-eqb-zero k = ground arith

suc-eqb-zero_add : (k : ℕ) → nat_eqb (0 + suc k) 0 ≡ false
suc-eqb-zero_add k = ground arith

module _ (links : Links) where
  abbrev answers : String → ℕ → Bool
  answers peer attempt = elim (links.new_stream peer attempt) [ none ↦ true | some _ ↦ false ]

  -- It was the negotiation that failed, so the peer may answer later.
  abbrev is_early : String → ℕ → Bool
  is_early peer attempt = elim (links.new_stream peer attempt) [
    | none ↦ false
    | some error ↦ is_negotiation error
  ]

  -- The peer answers one of the first three attempts, each after failures of the negotiation only.
  abbrev pub opens : String → Bool
  opens peer =
      answers peer 0 || is_early peer 0 && (answers peer 1 || is_early peer 1 && answers peer 2)

  abbrev pub tries : String → ℕ
  tries peer = if is_early peer 0 then (if is_early peer 1 then 3 else 2) else 1

  -- the peers that the message gets to
  abbrev pub reached : List String → List String
  reached [] = []
  reached (peer ∷ rest) =
      if opens peer && links.writes peer then peer ∷ reached rest else reached rest

  abbrev attempts : List String → List String
  attempts [] = []
  attempts (peer ∷ rest) = replicate (tries peer) peer ++ attempts rest

  open_stream_lem :
      (peer : String) (w : Wire)
      → open_stream links 5 0 peer w
        ≡ (opens peer, record w { opened = w.opened ++ replicate (tries peer) peer })
  unfolding open_stream
  open_stream_lem peer w = ground (
    arith,
    append_assoc w.opened (peer ∷ []) (peer ∷ []),
    append_assoc (w.opened ++ peer ∷ []) (peer ∷ []) (peer ∷ []),
    append_assoc w.opened (peer ∷ []) (peer ∷ peer ∷ []),
  )

  module _ (protocol : String) (bytes : List ℕ) where
    abbrev pub packets : List String → List (String × String × List ℕ)
    packets [] = []
    packets (peer ∷ rest) = (peer, protocol, bytes) ∷ packets rest

    send_lem :
        (peer : String) (w : Wire)
        → send links protocol bytes peer w ≡ (
          opens peer && links.writes peer,
          record {
            opened = w.opened ++ replicate (tries peer) peer;
            sent = w.sent ++ packets (reached (peer ∷ []));
          },
        )
    unfolding send
    send_lem peer w = rw (open_stream_lem peer w) (elim (Bool-cases (opens peer)) [
      | inl up ↦ elim (Bool-cases (links.writes peer)) [
        | inl written ↦ rw (up, written)
        | inr cut ↦ rw (up, cut) (rw (append-nil))
      ]
      | inr down ↦ rw (down) (rw (append-nil))
    ])

    send_all_lem :
        (peers : List String) (count : ℕ) (w : Wire)
        → send_all links protocol bytes peers (count, w) ≡ (
          count + length (reached peers),
          record { opened = w.opened ++ attempts peers; sent = w.sent ++ packets (reached peers) },
        )
    unfolding send_all
    send_all_lem [] count w = ground (arith, append-nil w.opened, append-nil w.sent)
    send_all_lem (peer ∷ rest) count w =
        rw (send_lem peer w, send_all_lem rest)
          (elim (Bool-cases (opens peer && links.writes peer)) [
            | inl got ↦ rw (got) (
                ground (
                  arith,
                  append_assoc w.opened (replicate (tries peer) peer) (attempts rest),
                  append_assoc w.sent ((peer, protocol, bytes) ∷ []) (packets (reached rest)),
                ))
            | inr lost ↦ rw (lost) (
                ground (
                  arith,
                  append-nil w.sent,
                  append_assoc w.opened (replicate (tries peer) peer) (attempts rest),
                ))
          ])

abbrev pub IsReachedBy : Links → List String → Type 0
IsReachedBy links peers = reached links peers ≢ []

-- How a broadcast ends: without an error exactly where there is no peer or one got the message,
-- and with what the peers got behind what was sent before, in the order of the peers.
abbrev pub Broadcasts :
    Links → Codec → List String → String → Message → Wire → Outcome Wire (Unit {0}) → Type 0
Broadcasts links json peers protocol msg w (ok _ w') =
    ((peers ≡ []) ⊎ (reached links peers ≢ []))
    × (w'.sent ≡ w.sent ++ packets links protocol (json.encode msg) (reached links peers))
Broadcasts links json peers protocol msg w (err e w') =
    (e ≡ broadcast_failed) × (peers ≢ []) × (reached links peers ≡ []) × (w'.sent ≡ w.sent)
Broadcasts links json peers protocol msg w panic = ⊥

abbrev pub Attempts : List String → Wire → Outcome Wire (Unit {0}) → Type 0
Attempts peers w (ok _ w') =
    (length w.opened + length peers ≤ length w'.opened)
    × (length w'.opened ≤ length w.opened + 3 * length peers)
Attempts peers w (err e w') =
    (length w.opened + length peers ≤ length w'.opened)
    × (length w'.opened ≤ length w.opened + 3 * length peers)
Attempts peers w panic = ⊥

module _ (links : Links) (json : Codec) {S : Type 0} (n : Node S) (protocol : String)
    (msg : Message) (w : Wire) where
  abbrev concluded : List String → Outcome Wire (Unit {0})
  concluded peers =
      let w' : Wire = record {
        opened = w.opened ++ attempts links peers;
        sent = w.sent ++ packets links protocol (json.encode msg) (reached links peers);
      } in
      if nat_eqb (length peers) 0
      then ok tt w
      else if nat_eqb (0 + length (reached links peers)) 0
      then err broadcast_failed w'
      else ok tt w'

  concluded-Broadcasts :
      (peers : List String) → Broadcasts links json peers protocol msg w (concluded peers)
  concluded-Broadcasts [] = (inl refl, sym (append-nil w.sent))
  concluded-Broadcasts (peer ∷ rest) = elim (List-cases (reached links (peer ∷ rest))) [
    | inl nobody ↦
        rw (nobody, suc-eqb-zero (length rest)) (refl, λ e. cc, nobody, append-nil w.sent)
    | inr (first, others, e) ↦
        rw (e, suc-eqb-zero (length rest), suc-eqb-zero_add (length others))
          (
            inr (λ e'. cc (e, e')),
            ap (λ got. w.sent ++ packets links protocol (json.encode msg) got) (sym e),
          )
  ]

  pub broadcast-Broadcasts :
      Broadcasts links json n.connected protocol msg w (broadcast links json n protocol msg w)
  unfolding broadcast get_peers
  broadcast-Broadcasts =
      rw (send_all_lem links protocol (json.encode msg) n.connected 0 w)
        (concluded-Broadcasts n.connected)
