-- ===== src/Consensus/Handler/Delivery.antt =====
-- pkg/consensus/pbft.go, HandleMessage: a node that gets messages one after another.
use zkrollup_go.Base.{
  ◌≡◌, refl, ap, List, [], ◌∷◌, Option, none, some, Bool, true, false, ◌||◌, String, Map, contains,
  All, length, string_eq, nat_eq, if◌then◌else◌, arith,
}
use zkrollup_go.Outcome.{Outcome, ok, err, panic}
use zkrollup_go.Outcome.Returns.{Reaches}
use zkrollup_go.Consensus.Types.{MessageType, ConsensusMessage, prepare, commit}
use zkrollup_go.Consensus.Pbft.{Pbft, Environment, is_known}
use zkrollup_go.Consensus.Rounds.Voters.{HaveVoted}
use zkrollup_go.Consensus.Handler.{handle}

-- All of the nodes are among the others.
abbrev pub AreAmong : List String → List String → Type 0
AreAmong others ids = All (λ id. is_known id others ≡ true) ids

HaveVoted-known :
    (votes : Map String Bool) (seen : List String) (id : String)
    → HaveVoted votes seen
    → is_known id seen ≡ true
    → contains id votes ≡ true
unfolding is_known
HaveVoted-known votes [] id h k = absurd (ground arith)
HaveVoted-known votes (x ∷ seen) id h k =
    ground (arith, string_eq.eqb_iff x id, HaveVoted-known votes seen id h.1, h.0)

pub HaveVoted-AreAmong :
    (votes : Map String Bool) (seen ids : List String)
    → HaveVoted votes seen
    → AreAmong seen ids
    → HaveVoted votes ids
HaveVoted-AreAmong votes seen [] h k = tt
HaveVoted-AreAmong votes seen (id ∷ ids) h k =
    (HaveVoted-known votes seen id h k.0, HaveVoted-AreAmong votes seen ids h k.1)

abbrev is_commit : MessageType → Bool
is_commit commit = true
is_commit _ = false

-- The senders of the commit messages, in order.
unfoldable pub committers : List ConsensusMessage → List String
committers [] = []
committers (msg ∷ msgs) =
    let rest = committers msgs in if is_commit msg.msg_type then msg.node_id ∷ rest else rest

pub committers_prepare :
    (msg : ConsensusMessage) (msgs : List ConsensusMessage)
    → msg.msg_type ≡ prepare
    → committers (msg ∷ msgs) ≡ committers msgs
unfolding committers
committers_prepare msg msgs kind =
    ap (λ k. if is_commit k then msg.node_id ∷ committers msgs else committers msgs) kind

pub committers_commit :
    (msg : ConsensusMessage) (msgs : List ConsensusMessage)
    → msg.msg_type ≡ commit
    → committers (msg ∷ msgs) ≡ msg.node_id ∷ committers msgs
unfolding committers
committers_commit msg msgs kind =
    ap (λ k. if is_commit k then msg.node_id ∷ committers msgs else committers msgs) kind

-- Each of the nodes has been seen, or is left.
abbrev pub AreCovered : List String → List String → List String → Type 0
AreCovered seen left ids = All (λ id. (is_known id seen || is_known id left) ≡ true) ids

pub AreCovered-seen : (seen ids : List String) → AreCovered seen [] ids → AreAmong seen ids
unfolding is_known
AreCovered-seen seen [] h = tt
AreCovered-seen seen (id ∷ ids) h = (ground (arith, h.0), AreCovered-seen seen ids h.1)

pub AreCovered-left : (left ids : List String) → AreAmong left ids → AreCovered [] left ids
unfolding is_known
AreCovered-left left [] h = tt
AreCovered-left left (id ∷ ids) h = (ground (arith, h.0), AreCovered-left left ids h.1)

pub AreCovered-move :
    (seen left : List String) (x : String) (ids : List String)
    → AreCovered seen (x ∷ left) ids
    → AreCovered (x ∷ seen) left ids
unfolding is_known
AreCovered-move seen left x [] h = tt
AreCovered-move seen left x (id ∷ ids) h =
    (ground (arith, h.0), AreCovered-move seen left x ids h.1)

-- A node that gets the messages one after another and logs the errors; `none` is a panic.
unfoldable pub deliver_all : Environment → List ConsensusMessage → Pbft → Option Pbft
deliver_all env [] q = some q
deliver_all env (msg ∷ msgs) q = elim (handle env msg q) [
  | ok _ q' ↦ deliver_all env msgs q'
  | err _ q' ↦ deliver_all env msgs q'
  | panic ↦ none
]

-- the rest of the messages
pub go_on :
    (env : Environment) (msgs : List ConsensusMessage) (r : Outcome Pbft (Unit {0}))
    (P Q : Pbft → Type 0)
    → ((q : Pbft) → P q → (q' : Pbft) × (deliver_all env msgs q ≡ some q') × Q q')
    → Reaches P r
    → (q' : Pbft) × ((elim r [
      | ok _ q ↦ deliver_all env msgs q
      | err _ q ↦ deliver_all env msgs q
      | panic ↦ none
    ])
        ≡ some q')
      × Q q'
go_on env msgs (ok _ q) P Q f h = f q h
go_on env msgs (err _ q) P Q f h = f q h
go_on env msgs panic P Q f h = absurd h

-- Nobody is among no nodes.
pub AreAmong-nil : (ids : List String) → AreAmong [] ids → length ids ≡ 0
unfolding is_known
AreAmong-nil [] h = refl
AreAmong-nil (id ∷ ids) h = absurd (ground (arith, h.0))
