-- ===== src/Onchain.antt =====
-- contracts/CRSManager.sol and pkg/l1/crsmanager.go: the ceremony of the contract CRSManager, and the
-- calls of it. A function of the contract that reverts is `none`. Each call of a client may fail, which
-- is a parameter; a transaction that would revert fails too, and changes nothing.
pub mod Orchestrator
pub mod Steps
pub mod Runs
pub mod Points
pub mod Completion
use zkrollup_go.Base.{
  ℕ, ◌+◌, ◌-◌, List, [], ◌∷◌, ◌++◌, Option, none, some, Map, lookup, insert, Bool, true, false, not,
  ◌&&◌, ◌||◌, ltb, leb, nat_eqb, nat_eq, if◌then◌else◌, length, get_elem?,
}
use zkrollup_go.Outcome.{
  M, Outcome, ok, err, pure, gets, raise_if, ◌>>=◌, ◌>>◌, contract_call_failed,
}
use zkrollup_go.State.{Address, Hash}

pub record CrsInfo : Type 0 where
  pub round : ℕ
  pub crs : List ℕ
  pub timestamp : ℕ
  pub participants : List Address

-- `commitments` has an entry where a commitment was submitted.
pub record CrsManager : Type 0 where
  pub current_round : ℕ
  pub round_duration : ℕ
  pub max_participants : ℕ
  pub commit_deadline : ℕ
  pub crs_history : Map ℕ CrsInfo
  pub commitments : Map ℕ (Map Address Hash)
  pub registered_participants : Map ℕ (List Address)
  pub current_crs : List ℕ
  pub current_contributor_idx : ℕ
  pub ceremony_active : Bool

-- the constructor, at the time `now`
unfoldable pub new_crs_manager : ℕ → ℕ → ℕ → CrsManager
new_crs_manager now round_duration max_participants = record {
  current_round = 1;
  round_duration = round_duration;
  max_participants = max_participants;
  commit_deadline = now + round_duration;
  crs_history = [];
  commitments = [];
  registered_participants = [];
  current_crs = [];
  current_contributor_idx = 0;
  ceremony_active = false;
}

abbrev pub or_nobody : Option (List Address) → List Address
or_nobody none = []
or_nobody (some participants) = participants

-- `getRegisteredParticipants`
unfoldable pub participants_of : CrsManager → List Address
participants_of m = or_nobody (lookup m.current_round m.registered_participants)

-- the loops over the participants that look for the sender
unfoldable pub is_registered : Address → List Address → Bool
is_registered sender [] = false
is_registered sender (participant ∷ rest) = nat_eqb participant sender || is_registered sender rest

-- `register`
unfoldable pub register : ℕ → Address → CrsManager → Option CrsManager
unfolding participants_of is_registered
register now sender m =
    let participants = participants_of m in
    let more = insert m.current_round (participants ++ sender ∷ []) m.registered_participants in
    if not (ltb now m.commit_deadline)
      || not (leb (length participants) m.max_participants)
      || is_registered sender participants
    then none
    else if nat_eqb (length participants) 0
    then some (record m {
      registered_participants = more;
      current_contributor_idx = 0;
      current_crs = [];
      ceremony_active = true;
    })
    else some (record m { registered_participants = more })

abbrev pub or_none_yet : Option (Map Address Hash) → Map Address Hash
or_none_yet none = []
or_none_yet (some commitments) = commitments

abbrev has_entry : Option Hash → Bool
has_entry none = false
has_entry (some _) = true

-- `submitCommitment`
unfoldable pub submit_commitment : ℕ → Address → Hash → CrsManager → Option CrsManager
unfolding participants_of is_registered
submit_commitment now sender commitment m =
    let of_round = or_none_yet (lookup m.current_round m.commitments) in
    if not (ltb now m.commit_deadline)
      || not (is_registered sender (participants_of m))
      || has_entry (lookup sender of_round)
    then none
    else some (record m {
      commitments = insert m.current_round (insert sender commitment of_round) m.commitments;
    })

-- `participants[idx] == addr`, out of range no
unfoldable pub is_at : ℕ → Address → List Address → Bool
is_at idx addr participants = elim (get_elem? participants idx) [
  | none ↦ false
  | some participant ↦ nat_eqb participant addr
]

-- `contributeCRS`
unfoldable pub contribute_crs : Address → List ℕ → CrsManager → Option CrsManager
unfolding participants_of is_at
contribute_crs sender new_crs m =
    if not m.ceremony_active
      || nat_eqb (length (participants_of m)) 0
      || not (ltb m.current_contributor_idx (length (participants_of m)))
      || not (is_at m.current_contributor_idx sender (participants_of m))
    then none
    else some (record m {
      current_crs = new_crs;
      current_contributor_idx = m.current_contributor_idx + 1;
    })

-- `info.crs.length == 0`
abbrev pub is_open : Option CrsInfo → Bool
is_open none = true
is_open (some info) = nat_eqb (length info.crs) 0

-- the state after a round
abbrev pub anchored : ℕ → CrsManager → CrsManager
unfolding participants_of
anchored now m = record m {
  crs_history =
      insert m.current_round
        (record {
          round = m.current_round;
          crs = m.current_crs;
          timestamp = now;
          participants = participants_of m;
        })
        m.crs_history;
  current_round = m.current_round + 1;
  commit_deadline = now + m.round_duration;
  ceremony_active = false;
  current_crs = [];
  current_contributor_idx = 0;
}

-- `finalizeCRS`
unfoldable pub finalize_crs : ℕ → CrsManager → Option CrsManager
unfolding participants_of
finalize_crs now m =
    if not m.ceremony_active
      || nat_eqb (length (participants_of m)) 0
      || not (nat_eqb m.current_contributor_idx (length (participants_of m)))
      || not (is_open (lookup m.current_round m.crs_history))
    then none
    else some (anchored now m)

-- `Register`, `SubmitCommitment`, `ContributeCRS` and `FinalizeCRS` of the client send a transaction;
-- the Boolean says whether the chain can be reached.
unfoldable pub transact : Bool → (CrsManager → Option CrsManager) → M CrsManager (Unit {0})
transact false run m = err contract_call_failed m
transact true run m = elim (run m) [ none ↦ err contract_call_failed m | some m' ↦ ok tt m' ]

-- a query of the client
unfoldable pub query : {A : Type 0} → Bool → (CrsManager → A) → M CrsManager A
query false read m = err contract_call_failed m
query true read m = ok (read m) m

-- `CheckTurn`, with whether its two queries are answered
unfoldable pub check_contributor : Bool → Bool → Address → M CrsManager Bool
unfolding query participants_of is_at
check_contributor answers_idx answers_participants addr = do
  idx ← query answers_idx (λ m. m.current_contributor_idx)
  participants ← query answers_participants participants_of
  pure (if leb (length participants) idx then false else is_at idx addr participants)

-- `participants[len(participants)-1] == addr`, and no if there are none
unfoldable pub is_last : Address → List Address → Bool
is_last addr [] = false
is_last addr (participant ∷ []) = nat_eqb participant addr
is_last addr (participant ∷ next ∷ rest) = is_last addr (next ∷ rest)

-- `IsLastContributor`
unfoldable pub is_last_contributor : Bool → Address → M CrsManager Bool
unfolding query participants_of is_last
is_last_contributor answers addr = do
  participants ← query answers participants_of
  pure (is_last addr participants)

-- `GetCurrentCRS`
unfoldable pub get_current_crs : Bool → M CrsManager (List ℕ)
unfolding query
get_current_crs answers = query answers (λ m. m.current_crs)

-- `GetLatestCRS`: what the contract keeps of the round before, or nothing
unfoldable pub get_latest_crs : Bool → M CrsManager (Option CrsInfo)
unfolding query
get_latest_crs answers = query answers (λ m. lookup (m.current_round - 1) m.crs_history)
