-- ===== src/Table/Shifts.antt =====
-- THospf/Table.cpp: the items of a tree in order, before and behind a shift.
use ospfbasic.Prelude.{zero, suc, ◌≡◌, refl, sym, ap, ◌∙◌, List, [], ◌∷◌, ◌++◌, pos, negsuc}
use mathlib.Core.List.{append_assoc}
use ospfbasic.Table.{
  TblItem, Tree, leaf, node, left_shift, right_shift, dbl_left_shift, dbl_right_shift, shift,
  readjust,
}

unfoldable pub elements : Tree → List TblItem
elements leaf = []
elements (node i b l r) = elements l ++ i ∷ elements r

-- The two groupings that a shift exchanges.
regroup :
    (b c : TblItem) (x y z : Tree)
    → (elements x ++ b ∷ elements y) ++ c ∷ elements z
      ≡ elements x ++ b ∷ (elements y ++ c ∷ elements z)
regroup b c x y z = append_assoc (elements x) (b ∷ elements y) (c ∷ elements z)

left_shift-elements : (t : Tree) → elements (left_shift t) ≡ elements t
unfolding elements left_shift
left_shift-elements leaf = refl
left_shift-elements (node b bb lb leaf) = refl
left_shift-elements (node b bb lb (node c (pos zero) lc rc)) = regroup b c lb lc rc
left_shift-elements (node b bb lb (node c (pos (suc zero)) lc rc)) = regroup b c lb lc rc
left_shift-elements (node b bb lb (node c (pos (suc (suc n))) lc rc)) = regroup b c lb lc rc
left_shift-elements (node b bb lb (node c (negsuc n) lc rc)) = regroup b c lb lc rc

right_shift-elements : (t : Tree) → elements (right_shift t) ≡ elements t
unfolding elements right_shift
right_shift-elements leaf = refl
right_shift-elements (node c bc leaf rc) = refl
right_shift-elements (node c bc (node b (pos n) lb rb) rc) = sym (regroup b c lb rb rc)
right_shift-elements (node c bc (node b (negsuc zero) lb rb) rc) = sym (regroup b c lb rb rc)
right_shift-elements (node c bc (node b (negsuc (suc n)) lb rb) rc) = sym (regroup b c lb rb rc)

-- Both double shifts put the node in the middle on top.
raised_left :
    (b c d : TblItem) (w x y z : Tree)
    → (elements w ++ b ∷ elements x) ++ c ∷ (elements y ++ d ∷ elements z)
      ≡ elements w ++ b ∷ ((elements x ++ c ∷ elements y) ++ d ∷ elements z)
raised_left b c d w x y z =
    append_assoc (elements w) (b ∷ elements x) _
    ∙ ap (λ l. elements w ++ b ∷ l) (sym (append_assoc (elements x) (c ∷ elements y) _))

raised_right :
    (b c d : TblItem) (w x y z : Tree)
    → (elements w ++ b ∷ elements x) ++ c ∷ (elements y ++ d ∷ elements z)
      ≡ (elements w ++ b ∷ (elements x ++ c ∷ elements y)) ++ d ∷ elements z
raised_right b c d w x y z =
    sym (append_assoc (elements w ++ b ∷ elements x) (c ∷ elements y) _)
    ∙ ap (λ l. l ++ d ∷ elements z) (append_assoc (elements w) (b ∷ elements x) _)

dbl_left_shift-elements : (t : Tree) → elements (dbl_left_shift t) ≡ elements t
unfolding elements dbl_left_shift
dbl_left_shift-elements leaf = refl
dbl_left_shift-elements (node b bb lb leaf) = refl
dbl_left_shift-elements (node b bb lb (node d bd leaf rd)) = refl
dbl_left_shift-elements (node b bb lb (node d bd (node c (pos zero) lc rc) rd)) =
    raised_left b c d lb lc rc rd
dbl_left_shift-elements (node b bb lb (node d bd (node c (pos (suc zero)) lc rc) rd)) =
    raised_left b c d lb lc rc rd
dbl_left_shift-elements (node b bb lb (node d bd (node c (pos (suc (suc n))) lc rc) rd)) =
    raised_left b c d lb lc rc rd
dbl_left_shift-elements (node b bb lb (node d bd (node c (negsuc zero) lc rc) rd)) =
    raised_left b c d lb lc rc rd
dbl_left_shift-elements (node b bb lb (node d bd (node c (negsuc (suc n)) lc rc) rd)) =
    raised_left b c d lb lc rc rd

dbl_right_shift-elements : (t : Tree) → elements (dbl_right_shift t) ≡ elements t
unfolding elements dbl_right_shift
dbl_right_shift-elements leaf = refl
dbl_right_shift-elements (node d bd leaf rd) = refl
dbl_right_shift-elements (node d bd (node b bb lb leaf) rd) = refl
dbl_right_shift-elements (node d bd (node b bb lb (node c (pos zero) lc rc)) rd) =
    raised_right b c d lb lc rc rd
dbl_right_shift-elements (node d bd (node b bb lb (node c (pos (suc zero)) lc rc)) rd) =
    raised_right b c d lb lc rc rd
dbl_right_shift-elements (node d bd (node b bb lb (node c (pos (suc (suc n))) lc rc)) rd) =
    raised_right b c d lb lc rc rd
dbl_right_shift-elements (node d bd (node b bb lb (node c (negsuc zero) lc rc)) rd) =
    raised_right b c d lb lc rc rd
dbl_right_shift-elements (node d bd (node b bb lb (node c (negsuc (suc n)) lc rc)) rd) =
    raised_right b c d lb lc rc rd

pub shift-elements : (t : Tree) → elements (shift t) ≡ elements t
unfolding shift
shift-elements leaf = refl
shift-elements (node i (pos zero) l r) = refl
shift-elements (node i (pos (suc zero)) l r) = refl
shift-elements (node i (pos (suc (suc zero))) l leaf) = left_shift-elements _
shift-elements (node i (pos (suc (suc zero))) l (node j (pos n) k s)) = left_shift-elements _
shift-elements (node i (pos (suc (suc zero))) l (node j (negsuc zero) k s)) =
    dbl_left_shift-elements _
shift-elements (node i (pos (suc (suc zero))) l (node j (negsuc (suc n)) k s)) =
    left_shift-elements _
shift-elements (node i (pos (suc (suc (suc n)))) l r) = refl
shift-elements (node i (negsuc zero) l r) = refl
shift-elements (node i (negsuc (suc zero)) leaf r) = right_shift-elements _
shift-elements (node i (negsuc (suc zero)) (node j (pos zero) k s) r) = right_shift-elements _
shift-elements (node i (negsuc (suc zero)) (node j (pos (suc zero)) k s) r) =
    dbl_right_shift-elements _
shift-elements (node i (negsuc (suc zero)) (node j (pos (suc (suc n))) k s) r) =
    right_shift-elements _
shift-elements (node i (negsuc (suc zero)) (node j (negsuc n) k s) r) = right_shift-elements _
shift-elements (node i (negsuc (suc (suc n))) l r) = refl

pub readjust-elements : (t : Tree) → elements (readjust t).0 ≡ elements t
unfolding readjust
readjust-elements leaf = refl
readjust-elements (node i (pos zero) l r) = refl
readjust-elements (node i (pos (suc zero)) l r) = refl
readjust-elements (node i (pos (suc (suc zero))) l leaf) = left_shift-elements _
readjust-elements (node i (pos (suc (suc zero))) l (node j (pos zero) k s)) = left_shift-elements _
readjust-elements (node i (pos (suc (suc zero))) l (node j (pos (suc zero)) k s)) =
    left_shift-elements _
readjust-elements (node i (pos (suc (suc zero))) l (node j (pos (suc (suc n))) k s)) =
    left_shift-elements _
readjust-elements (node i (pos (suc (suc zero))) l (node j (negsuc zero) k s)) =
    dbl_left_shift-elements _
readjust-elements (node i (pos (suc (suc zero))) l (node j (negsuc (suc n)) k s)) =
    left_shift-elements _
readjust-elements (node i (pos (suc (suc (suc n)))) l r) = refl
readjust-elements (node i (negsuc zero) l r) = refl
readjust-elements (node i (negsuc (suc zero)) leaf r) = right_shift-elements _
readjust-elements (node i (negsuc (suc zero)) (node j (pos zero) k s) r) = right_shift-elements _
readjust-elements (node i (negsuc (suc zero)) (node j (pos (suc zero)) k s) r) =
    dbl_right_shift-elements _
readjust-elements (node i (negsuc (suc zero)) (node j (pos (suc (suc n))) k s) r) =
    right_shift-elements _
readjust-elements (node i (negsuc (suc zero)) (node j (negsuc zero) k s) r) = right_shift-elements _
readjust-elements (node i (negsuc (suc zero)) (node j (negsuc (suc n)) k s) r) =
    right_shift-elements _
readjust-elements (node i (negsuc (suc (suc n))) l r) = refl
