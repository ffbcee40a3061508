-- ===== src/Consensus/Pbft/Rotation.antt =====
-- The nodes that a node knows, and the choice of the next leader among them.
use zkrollup_go.Base.{
  ◌≡◌, refl, sym, ◌∙◌, ℕ, zero, suc, ◌<◌, List, [], ◌∷◌, Option, none, some, true, ◌||◌, arith,
  String, string_eq, ◌==◌, length, get_elem?, eqb_refl,
}
use zkrollup_go.Base.Text.{sort_strings, insert_sorted}
use zkrollup_go.Consensus.Pbft.{Pbft, is_known, position, next_position, rotate_leader}

is_known-insert_sorted :
    (id x : String) (xs : List String)
    → is_known id (insert_sorted x xs) ≡ (x == id || is_known id xs)
unfolding is_known insert_sorted
is_known-insert_sorted id x [] = refl
is_known-insert_sorted id x (y ∷ ys) = ground (arith, is_known-insert_sorted id x ys)

is_known-sort_strings :
    (id : String) (xs : List String) → is_known id (sort_strings xs) ≡ is_known id xs
unfolding is_known sort_strings
is_known-sort_strings id [] = refl
is_known-sort_strings id (x ∷ xs) =
    ground (arith, is_known-insert_sorted id x (sort_strings xs), is_known-sort_strings id xs)

get_elem?-is_known :
    (k : ℕ) (xs : List String)
    → k < length xs
    → (x : String) × (get_elem? xs k ≡ some x) × (is_known x xs ≡ true)
unfolding is_known
get_elem?-is_known k [] h = absurd (omega (arith, h))
get_elem?-is_known zero (x ∷ xs) h = (x, refl, ground (arith, eqb_refl x))
get_elem?-is_known (suc k) (x ∷ xs) h =
    let (y, e, known) = get_elem?-is_known k xs (omega (arith, h)) in (y, e, ground arith)

is_known-nonempty : (id : String) (xs : List String) → is_known id xs ≡ true → 0 < length xs
unfolding is_known
is_known-nonempty id [] h = absurd (ground arith)
is_known-nonempty id (x ∷ xs) h = omega arith

next_position-below : (o : Option ℕ) (n : ℕ) → 0 < n → next_position o n < n
next_position-below none n h = h
next_position-below (some k) n h = omega (arith, h)

-- A node that knows itself can choose the next leader, whatever nodes it knows: the index is in
-- range, and the node chosen is one that it knows.
pub rotate_leader-is_known :
    (p : Pbft)
    → is_known p.node_id p.node_ids ≡ true
    → (next : String) × (rotate_leader p ≡ some next) × (is_known next p.node_ids ≡ true)
unfolding rotate_leader
rotate_leader-is_known p h =
    let sorted = sort_strings p.node_ids in
    let self : is_known p.node_id sorted ≡ true = is_known-sort_strings p.node_id p.node_ids ∙ h in
    let (next, e, known) =
      get_elem?-is_known (next_position (position p.node_id sorted) (length sorted)) sorted
        (next_position-below _ (length sorted) (is_known-nonempty p.node_id sorted self)) in
    (next, e, sym (is_known-sort_strings next p.node_ids) ∙ known)
