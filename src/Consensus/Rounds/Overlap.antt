-- ===== src/Consensus/Rounds/Overlap.antt =====
-- The nodes that two groups of votes share.
use zkrollup_go.Base.{
  ◌≡◌, ◌≤◌, ◌⊎◌, inl, inr, refl, ℕ, suc, ◌+◌, List, [], ◌∷◌, Bool, true, false, ◌||◌, String, Map,
  contains, HasUniqueKeys, All, length, ◌==◌, string_eq, if◌then◌else◌, arith, eqb_refl, Bool-cases,
}
use zkrollup_go.Consensus.Pbft.{is_known}
use zkrollup_go.Consensus.Rounds.Voters.{AreDistinct}

-- How many of the nodes pass the test.
unfoldable pub count : (String → Bool) → List String → ℕ
count test [] = 0
count test (id ∷ ids) = let rest = count test ids in if test id then suc rest else rest

count-false : (ids : List String) → count (λ id. false) ids ≤ 0
unfolding count
count-false [] = omega arith
count-false (id ∷ ids) = ground (arith, count-false ids)

count_absent :
    (x : String) (ids : List String)
    → All (λ other. (x == other) ≡ false) ids
    → count (λ id. x == id) ids ≡ 0
unfolding count
count_absent x [] h = refl
count_absent x (id ∷ ids) h = ground (arith, h.0, count_absent x ids h.1)

-- A node passes both tests and not the third, or the tests overlap too little.
pub common_or_few :
    (a b f : String → Bool) (ids : List String)
    → ((id : String) × (a id ≡ true) × (b id ≡ true) × (f id ≡ false))
      ⊎ (count a ids + count b ids ≤ length ids + count f ids)
unfolding count
common_or_few a b f [] = inr (omega arith)
common_or_few a b f (id ∷ ids) = elim (common_or_few a b f ids) [
  | inl found ↦ inl found
  | inr few ↦ elim (Bool-cases (a id)) [
    | inr fa ↦ inr (ground (arith, few, fa))
    | inl fa ↦ elim (Bool-cases (b id)) [
      | inr fb ↦ inr (ground (arith, few, fb))
      | inl fb ↦ elim (Bool-cases (f id)) [
        | inr ff ↦ inl (id, fa, fb, ff)
        | inl ff ↦ inr (ground (arith, few, ff))
      ]
    ]
  ]
]

count_ext :
    (s t : String → Bool) (ids : List String)
    → ((id : String) → s id ≡ t id)
    → count s ids ≡ count t ids
unfolding count
count_ext s t [] h = refl
count_ext s t (id ∷ ids) h = ground (arith, h id, count_ext s t ids h)

count_one : (x : String) (ids : List String) → AreDistinct ids → count (λ id. x == id) ids ≤ 1
unfolding count
count_one x [] distinct = omega arith
count_one x (id ∷ ids) distinct = elim (Bool-cases (x == id)) [
  | inl same ↦
      let e : x ≡ id = (string_eq.eqb_iff x id).0 same in
      let none_left : count (λ other. x == other) ids ≡ 0 =
        rw (e) (count_absent id ids distinct.0) in
      ground (arith, same, none_left)
  | inr other ↦ ground (arith, other, count_one x ids distinct.1)
]

count_or :
    (s t : String → Bool) (ids : List String)
    → count (λ id. s id || t id) ids ≤ count s ids + count t ids
unfolding count
count_or s t [] = omega arith
count_or s t (id ∷ ids) = ground (arith, count_or s t ids)

-- Few nodes are among few others.
pub count_known :
    (ids others : List String)
    → AreDistinct ids
    → count (λ id. is_known id others) ids ≤ length others
unfolding is_known count
count_known ids [] distinct = count-false ids
count_known ids (x ∷ others) distinct = omega (
  arith,
  count_or (λ id. x == id) (λ id. is_known id others) ids,
  count_one x ids distinct,
  count_known ids others distinct,
)

count_more :
    (s t : String → Bool) (ids : List String) → count t ids ≤ count (λ id. s id || t id) ids
unfolding count
count_more s t [] = omega arith
count_more s t (id ∷ ids) = ground (arith, count_more s t ids)

count_another :
    (x : String) (t : String → Bool) (ids : List String)
    → is_known x ids ≡ true
    → t x ≡ false
    → suc (count t ids) ≤ count (λ id. x == id || t id) ids
unfolding count is_known
count_another x t [] known new = absurd (ground (arith, known))
count_another x t (id ∷ ids) known new = elim (Bool-cases (x == id)) [
  | inl same ↦
      let e : x ≡ id = (string_eq.eqb_iff x id).0 same in
      let unseen : t id ≡ false = rw⁻¹ (e) new in
      ground (arith, same, unseen, count_more (λ other. x == other) t ids)
  | inr other ↦
      let later : is_known x ids ≡ true =
        ground (arith, known, other, string_eq.eqb_iff x id, string_eq.eqb_iff id x) in
      ground (arith, other, count_another x t ids later new)
]

-- Whoever has voted is among the nodes.
abbrev pub AreFrom : List String → Map String Bool → Type 0
AreFrom ids votes = (id : String) → contains id votes ≡ true → is_known id ids ≡ true

-- Votes of different nodes are at most as many as the nodes that have voted.
pub votes_counted :
    (ids : List String) (votes : Map String Bool)
    → HasUniqueKeys votes
    → AreFrom ids votes
    → length votes ≤ count (λ id. contains id votes) ids
unfolding count
votes_counted ids [] unique known = omega arith
votes_counted ids ((voter, vote) ∷ votes) unique known =
    let first : is_known voter ids ≡ true = known voter (ground (arith, eqb_refl voter)) in
    let rest : AreFrom ids votes = λ id h. known id (ground (arith, h)) in
    let split : count (λ id. voter == id || contains id votes) ids
        ≡ count (λ id. contains id ((voter, vote) ∷ votes)) ids =
      count_ext _ _ ids (λ id. ground arith) in
    omega (
      arith,
      split,
      votes_counted ids votes unique.1 rest,
      count_another voter (λ id. contains id votes) ids first unique.0,
    )
