-- ===== src/Base/Text.antt =====
-- Go's order on strings, and `sort.Strings`. Go compares the bytes of UTF-8, which have the order
-- of the code points.
use Prim.Native.Char.{code}
use zkrollup_go.Base.{Bool, true, false, String, List, [], ◌∷◌, if◌then◌else◌, ltb, nat_eqb}

-- `a <= b`
pub str_leb : String → String → Bool
str_leb String.[] t = true
str_leb (String.◌∷◌ c s) String.[] = false
str_leb (String.◌∷◌ c s) (String.◌∷◌ d t) =
    let rest = str_leb s t in
    if ltb (code c) (code d) then true else if nat_eqb (code c) (code d) then rest else false

unfoldable pub insert_sorted : String → List String → List String
insert_sorted x [] = x ∷ []
insert_sorted x (y ∷ ys) = if str_leb x y then x ∷ y ∷ ys else y ∷ insert_sorted x ys

-- The one ascending arrangement of the list.
unfoldable pub sort_strings : List String → List String
unfolding insert_sorted str_leb
sort_strings [] = []
sort_strings (x ∷ xs) = insert_sorted x (sort_strings xs)
