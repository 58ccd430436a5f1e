-- ===== src/Contracts/Patch/Ordered.antt =====
-- src/contracts/patch.rs: `windows(2)` on sorted texts, which compares neighbours only.
use checkspan.Common.{true, List, [], ◌∷◌, ◌≡◌, refl, arith, Text, All}
use checkspan.Common.Sorting.{text_ltb}
use checkspan.Contracts.Patch.{is_ascending}

-- Every text is less than all that follow it.
unfoldable pub Ascending : List Text → Type 0
Ascending [] = Unit
Ascending (x ∷ xs) = All (λ y. text_ltb x y ≡ true) xs × Ascending xs

text_ltb_trans : (a b c : Text) → text_ltb a b ≡ true → text_ltb b c ≡ true → text_ltb a c ≡ true
unfolding text_ltb
text_ltb_trans [] [] c h k = cc
text_ltb_trans [] (y ∷ b) [] h k = cc
text_ltb_trans [] (y ∷ b) (z ∷ c) h k = refl
text_ltb_trans (x ∷ a) [] c h k = cc
text_ltb_trans (x ∷ a) (y ∷ b) [] h k = cc
text_ltb_trans (x ∷ a) (y ∷ b) (z ∷ c) h k = ground (arith, h, k, text_ltb_trans a b c)

All_trans :
    (x y : Text) (zs : List Text)
    → text_ltb x y ≡ true
    → All (λ z. text_ltb y z ≡ true) zs
    → All (λ z. text_ltb x z ≡ true) zs
All_trans x y [] h k = tt
All_trans x y (z ∷ zs) h (first, rest) = (text_ltb_trans x y z h first, All_trans x y zs h rest)

pub is_ascending-Ascending : (xs : List Text) → is_ascending xs ≡ true → Ascending xs
unfolding is_ascending Ascending
is_ascending-Ascending [] h = tt
is_ascending-Ascending (x ∷ []) h = (tt, tt)
is_ascending-Ascending (x ∷ y ∷ rest) h =
    let less : text_ltb x y ≡ true = ground (arith, h) in
    let (first, later) = is_ascending-Ascending (y ∷ rest) (ground (arith, h)) in
    ((less, All_trans x y rest less first), (first, later))

pub Ascending_adjacent : (xs : List Text) → Ascending xs → is_ascending xs ≡ true
unfolding is_ascending Ascending
Ascending_adjacent [] h = refl
Ascending_adjacent (x ∷ []) h = refl
Ascending_adjacent (x ∷ y ∷ rest) ((less, _), later) =
    ground (arith, less, Ascending_adjacent (y ∷ rest) later)
