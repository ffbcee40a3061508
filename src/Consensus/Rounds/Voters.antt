-- ===== src/Consensus/Rounds/Voters.antt =====
-- The voters of a round: the keys of Go's map from nodes to votes.
use zkrollup_go.Base.{
  ◌≡◌, ◌≤◌, suc, List, [], ◌∷◌, Bool, true, false, ◌||◌, String, Map, insert, contains,
  lookup-insert, All, length, ◌==◌, string_eq, if◌then◌else◌, arith,
}

-- No two of the nodes are the same.
abbrev pub AreDistinct : List String → Type 0
AreDistinct [] = Unit
AreDistinct (id ∷ ids) = All (λ other. (id == other) ≡ false) ids × AreDistinct ids

-- All of the nodes have voted.
abbrev pub HaveVoted : Map String Bool → List String → Type 0
HaveVoted votes ids = All (λ id. contains id votes ≡ true) ids

erase : String → Map String Bool → Map String Bool
erase id [] = []
erase id ((voter, vote) ∷ votes) = if voter == id then votes else (voter, vote) ∷ erase id votes

length-erase :
    (id : String) (votes : Map String Bool)
    → contains id votes ≡ true
    → length votes ≡ suc (length (erase id votes))
unfolding erase
length-erase id [] h = absurd (ground arith)
length-erase id ((voter, vote) ∷ votes) h = ground (arith, length-erase id votes)

contains-erase :
    (id other : String) (votes : Map String Bool)
    → (id == other) ≡ false
    → contains other votes ≡ true
    → contains other (erase id votes) ≡ true
unfolding erase
contains-erase id other [] e h = h
contains-erase id other ((voter, vote) ∷ votes) e h = ground (
  arith,
  string_eq.eqb_iff voter id,
  string_eq.eqb_iff voter other,
  string_eq.eqb_iff id other,
  contains-erase id other votes,
)

HaveVoted-erase :
    (id : String) (votes : Map String Bool) (ids : List String)
    → All (λ other. (id == other) ≡ false) ids
    → HaveVoted votes ids
    → HaveVoted (erase id votes) ids
HaveVoted-erase id votes [] e h = tt
HaveVoted-erase id votes (other ∷ ids) e h =
    (contains-erase id other votes e.0 h.0, HaveVoted-erase id votes ids e.1 h.1)

-- Distinct nodes that have voted are at most as many as there are votes.
pub distinct_voters :
    (ids : List String) (votes : Map String Bool)
    → AreDistinct ids
    → HaveVoted votes ids
    → length ids ≤ length votes
distinct_voters [] votes distinct h = omega arith
distinct_voters (id ∷ ids) votes distinct h = omega (
  arith,
  length-erase id votes h.0,
  distinct_voters ids (erase id votes) distinct.1 (HaveVoted-erase id votes ids distinct.0 h.1),
)

pub contains-insert :
    (id voter : String) (votes : Map String Bool)
    → contains id (insert voter true votes) ≡ (voter == id || contains id votes)
contains-insert id voter votes = ground (arith, lookup-insert voter id true votes)

-- A further vote takes none back.
pub HaveVoted-insert :
    (ids : List String) (voter : String) (votes : Map String Bool)
    → HaveVoted votes ids
    → HaveVoted (insert voter true votes) ids
HaveVoted-insert [] voter votes h = tt
HaveVoted-insert (id ∷ ids) voter votes h =
    (ground (arith, contains-insert id voter votes, h.0), HaveVoted-insert ids voter votes h.1)
