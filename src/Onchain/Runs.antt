-- ===== src/Onchain/Runs.antt =====
-- pkg/sequencer/crs_orchestrator.go with contracts/CRSManager.sol: runs of a ceremony.
use zkrollup_go.Base.{◌≡◌, refl, ℕ, [], some, nat_eq, arith}
use zkrollup_go.State.{Address, Hash}
use zkrollup_go.Onchain.{CrsManager, new_crs_manager, register, submit_commitment}
use zkrollup_go.Onchain.Orchestrator.{Curve, Luck, step}
use zkrollup_go.Onchain.Steps.{step_empty}

-- The states of the contract from its start, under registrations, commitments, and turns of the
-- orchestrators of any nodes, in any order and however the calls are answered.
pub data Orchestrated (curve : Curve) : CrsManager → Type 0 where
  deployed :
      (now round_duration max_participants : ℕ)
      → Orchestrated curve (new_crs_manager now round_duration max_participants)
  registers :
      {m m' : CrsManager} (now : ℕ) (sender : Address)
      → Orchestrated curve m
      → register now sender m ≡ some m'
      → Orchestrated curve m'
  commits :
      {m m' : CrsManager} (now : ℕ) (sender : Address) (commitment : Hash)
      → Orchestrated curve m
      → submit_commitment now sender commitment m ≡ some m'
      → Orchestrated curve m'
  turns :
      {m : CrsManager} (luck : Luck) (from : Address)
      → Orchestrated curve m
      → Orchestrated curve (step curve luck from m)

-- Nobody has contributed, and no round was ever finalized.
abbrev pub IsStuck : CrsManager → Type 0
IsStuck m =
    (m.current_crs ≡ [])
    × (m.current_contributor_idx ≡ 0)
    × (m.crs_history ≡ [])
    × (m.current_round ≡ 1)

register-IsStuck :
    (now : ℕ) (sender : Address) (m m' : CrsManager)
    → IsStuck m
    → register now sender m ≡ some m'
    → IsStuck m'
unfolding register
register-IsStuck now sender m m' h e = ground arith

commit-IsStuck :
    (now : ℕ) (sender : Address) (commitment : Hash) (m m' : CrsManager)
    → IsStuck m
    → submit_commitment now sender commitment m ≡ some m'
    → IsStuck m'
unfolding submit_commitment
commit-IsStuck now sender commitment m m' h e = ground arith

-- Whatever nodes register and commit, and however often their orchestrators take a turn, nobody ever
-- contributes to the first round and no round is ever finalized: a new ceremony has an empty CRS,
-- which the first contributor cannot transform.
pub Orchestrated-IsStuck : (curve : Curve) (m : CrsManager) → Orchestrated curve m → IsStuck m
unfolding new_crs_manager
Orchestrated-IsStuck curve _ (deployed now round_duration max_participants) =
    (refl, refl, refl, refl)
Orchestrated-IsStuck curve m' (registers {m} now sender r e) =
    register-IsStuck now sender m m' (Orchestrated-IsStuck curve m r) e
Orchestrated-IsStuck curve m' (commits {m} now sender commitment r e) =
    commit-IsStuck now sender commitment m m' (Orchestrated-IsStuck curve m r) e
Orchestrated-IsStuck curve _ (turns {m} luck from r) =
    let h = Orchestrated-IsStuck curve m r in rw (step_empty curve luck from m h.0) h
