-- ===== src/Consensus/Types/Quorum.antt =====
-- The number of votes that the handlers ask for, and the tolerance of faults of f = (n - 1) / 3.
use zkrollup_go.Base.{
  ◌≡◌, ◌↔◌, ◌⊎◌, ℕ, ◌+◌, ◌-◌, ◌*◌, ◌/◌, ◌%◌, ◌≤◌, ◌<◌, true, nat_eqb, if◌then◌else◌, arith,
}
use zkrollup_go.Consensus.Types.{has_quorum, quorum}

-- The faulty nodes that n nodes are to tolerate.
abbrev pub faults : ℕ → ℕ
faults n = (n - 1) / 3

-- The nodes that are not faulty suffice for the votes. Two groups of that many votes share
-- 2 q - n nodes: more than the faulty ones for n = 3 m and n = 3 m + 1, and just as many as the
-- faulty ones for n = 3 m + 2.
pub quorum_bounds :
    (n : ℕ)
    → 0 < n
    → (quorum n + faults n ≤ n)
      × ((n % 3 ≡ 0) × (2 * quorum n ≡ n + faults n + 3)
          ⊎ (n % 3 ≡ 1) × (2 * quorum n ≡ n + faults n + 1)
          ⊎ (n % 3 ≡ 2) × (2 * quorum n ≡ n + faults n))
unfolding quorum
quorum_bounds n h = (omega arith, ground arith)

-- HasQuorum and the handlers ask for the same number of votes, but where n is a multiple of 3:
-- there the handlers ask for two more.
pub has_quorum-quorum :
    (count n : ℕ)
    → 0 < n
    → (has_quorum count n ≡ true) ↔ (quorum n ≤ count + (if nat_eqb (n % 3) 0 then 2 else 0))
unfolding quorum has_quorum
has_quorum-quorum count n h = ((λ e. ground arith), (λ e. ground arith))
