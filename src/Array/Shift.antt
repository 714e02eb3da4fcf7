-- ===== src/Array/Shift.antt =====
-- The two loops of src/riak_array.c that move elements up and down by one cell.
use riak_c_client.Base.{
  ℕ, zero, suc, ◌+◌, ◌^◌, ◌≤◌, ◌<◌, ◌≡◌, refl, sym, ap, ap₂, ◌∙◌, Option, none, some, List, [], ◌∷◌,
  ◌++◌, arith, length, get_elem?, set, take, drop, length-set, length-append, length-take,
  length-drop, get_elem?-some, take-set_past,
}
use riak_c_client.Array.{shift_up, shift_down}

abbrev cons_in : ℕ → Option (List ℕ) → Option (List ℕ)
cons_in x none = none
cons_in x (some xs) = some (x ∷ xs)

-- One round of each loop.
shift_up-suc :
    (k pos v : ℕ) (xs : List ℕ)
    → get_elem? xs (pos + k) ≡ some v
    → pos + suc k < length xs
    → shift_up (suc k) pos xs ≡ shift_up k pos (set xs (pos + suc k) v)
unfolding shift_up
shift_up-suc k pos v xs got h = ground arith

pub shift_down-suc :
    (k j v : ℕ) (xs : List ℕ)
    → get_elem? xs (j + 1) ≡ some v
    → j + 1 < length xs
    → j + 1 < 2 ^ 31
    → shift_down (suc k) j xs ≡ shift_down k (j + 1) (set xs j v)
unfolding shift_down
shift_down-suc k j v xs got h small = ground arith

-- The loops leave a cell in front of their range alone.
shift_up-cons :
    (k pos x : ℕ) (xs : List ℕ)
    → pos + k < length xs
    → shift_up k (suc pos) (x ∷ xs) ≡ cons_in x (shift_up k pos xs)
unfolding shift_up
shift_up-cons zero pos x xs h = refl
shift_up-cons (suc k) pos x xs h =
    let e : suc pos + k ≡ suc (pos + k) = omega arith in
    let e' : suc pos + suc k ≡ suc (pos + suc k) = omega arith in
    let (v, got) = get_elem?-some xs (pos + k) (omega arith) in
    let got' : get_elem? (x ∷ xs) (suc pos + k) ≡ some v = rw e got in
    shift_up-suc k (suc pos) v (x ∷ xs) got' (omega arith)
    ∙ ap (λ i. shift_up k (suc pos) (set (x ∷ xs) i v)) e'
    ∙ shift_up-cons k pos x (set xs (pos + suc k) v) (omega (arith, length-set xs (pos + suc k) v))
    ∙ ap (cons_in x) (sym (shift_up-suc k pos v xs got (omega arith)))

drop-set_self : (k v : ℕ) (xs : List ℕ) → k < length xs → drop k (set xs k v) ≡ v ∷ drop (suc k) xs
drop-set_self k v [] h = absurd (omega arith)
drop-set_self zero v (x ∷ xs) h = refl
drop-set_self (suc k) v (x ∷ xs) h = drop-set_self k v xs (omega arith)

pub take-suc-get :
    (k v : ℕ) (xs ys : List ℕ)
    → get_elem? xs k ≡ some v
    → take (suc k) xs ++ ys ≡ take k xs ++ (v ∷ ys)
take-suc-get k v [] ys got = cc
take-suc-get zero v (x ∷ xs) ys got = ground arith
take-suc-get (suc k) v (x ∷ xs) ys got = ap (λ r. x ∷ r) (take-suc-get k v xs ys got)

-- What the cells from `y` on hold after `k` rounds upwards to index 0.
shift_up-zero :
    (k y : ℕ) (ys : List ℕ)
    → k < suc (length ys)
    → shift_up k 0 (y ∷ ys) ≡ some (y ∷ (take k (y ∷ ys) ++ drop k ys))
shift_up-zero zero y ys h = unfold shift_up in refl
shift_up-zero (suc k) y ys h =
    let (v, got) = get_elem?-some (y ∷ ys) k (omega arith) in
    let e : 0 + k ≡ k = omega arith in
    let e' : 0 + suc k ≡ suc k = omega arith in
    let got' : get_elem? (y ∷ ys) (0 + k) ≡ some v = rw e got in
    shift_up-suc k 0 v (y ∷ ys) got' (omega arith)
    ∙ ap (λ i. shift_up k 0 (set (y ∷ ys) i v)) e'
    ∙ shift_up-zero k y (set ys k v) (omega (arith, length-set ys k v))
    ∙ ap (λ r. some (y ∷ r))
        (ap₂ ◌++◌ (take-set_past k (y ∷ ys) (suc k) v (omega arith))
            (drop-set_self k v ys (omega arith))
          ∙ sym (take-suc-get k v (y ∷ ys) (drop (suc k) ys) got))

-- The cells after the loop of riak_array_insert, as a recursion on the position.
pub moved_up : ℕ → ℕ → List ℕ → List ℕ
moved_up k pos [] = []
moved_up k zero (y ∷ ys) = y ∷ (take k (y ∷ ys) ++ drop k ys)
moved_up k (suc pos) (x ∷ xs) = x ∷ moved_up k pos xs

pub shift_up-moved_up :
    (k pos : ℕ) (xs : List ℕ) → pos + k < length xs → shift_up k pos xs ≡ some (moved_up k pos xs)
unfolding moved_up
shift_up-moved_up k pos [] h = absurd (omega arith)
shift_up-moved_up k zero (y ∷ ys) h = shift_up-zero k y ys (omega arith)
shift_up-moved_up k (suc pos) (x ∷ xs) h =
    shift_up-cons k pos x xs (omega arith)
    ∙ ap (cons_in x) (shift_up-moved_up k pos xs (omega arith))

pub length-moved_up :
    (k pos : ℕ) (xs : List ℕ) → pos + k < length xs → length (moved_up k pos xs) ≡ length xs
unfolding moved_up
length-moved_up k pos [] h = refl
length-moved_up k zero (y ∷ ys) h =
    omega
      (arith, length-append (take k (y ∷ ys)) (drop k ys), length-take k (y ∷ ys), length-drop k ys)
length-moved_up k (suc pos) (x ∷ xs) h = omega (arith, length-moved_up k pos xs)

take-take_append : (k : ℕ) (xs ys : List ℕ) → k ≤ length xs → take k (take k xs ++ ys) ≡ take k xs
take-take_append zero xs ys h = refl
take-take_append (suc k) [] ys h = absurd (omega arith)
take-take_append (suc k) (x ∷ xs) ys h = ap (λ r. x ∷ r) (take-take_append k xs ys (omega arith))

-- With the new element written at `pos`, the first cells are the old ones with it put in.
pub take-set-moved_up :
    (k pos v : ℕ) (xs : List ℕ)
    → pos + k < length xs
    → take (pos + suc k) (set (moved_up k pos xs) pos v) ≡ take pos xs ++ (v ∷ take k (drop pos xs))
unfolding moved_up
take-set-moved_up k pos v [] h = absurd (omega arith)
take-set-moved_up k zero v (y ∷ ys) h =
    let e : 0 + suc k ≡ suc k = omega arith in
    rw e (ap (λ r. v ∷ r) (take-take_append k (y ∷ ys) (drop k ys) (omega arith)))
take-set-moved_up k (suc pos) v (x ∷ xs) h =
    let e : suc pos + suc k ≡ suc (pos + suc k) = omega arith in
    rw e (ap (λ r. x ∷ r) (take-set-moved_up k pos v xs (omega arith)))

-- The same for the loop of riak_array_remove.
shift_down-cons :
    (k j x : ℕ) (xs : List ℕ)
    → j + k < length xs
    → suc (j + k) < 2 ^ 31
    → shift_down k (suc j) (x ∷ xs) ≡ cons_in x (shift_down k j xs)
shift_down-cons zero j x xs h small = unfold shift_down in refl
shift_down-cons (suc k) j x xs h small =
    let (v, got) = get_elem?-some xs (j + 1) (omega arith) in
    let e : suc j + 1 ≡ suc (j + 1) = omega arith in
    let got' : get_elem? (x ∷ xs) (suc j + 1) ≡ some v = rw e got in
    shift_down-suc k (suc j) v (x ∷ xs) got' (omega arith) (omega arith)
    ∙ ap (λ i. shift_down k i (x ∷ set xs j v)) e
    ∙ shift_down-cons k (j + 1) x (set xs j v) (omega (arith, length-set xs j v)) (omega arith)
    ∙ ap (cons_in x) (sym (shift_down-suc k j v xs got (omega arith) (omega arith)))

shift_down-zero :
    (k y : ℕ) (ys : List ℕ)
    → k ≤ length ys
    → k < 2 ^ 31
    → shift_down k 0 (y ∷ ys) ≡ some (take k ys ++ drop k (y ∷ ys))
shift_down-zero zero y ys h small = unfold shift_down in refl
shift_down-zero (suc k) y [] h small = absurd (omega arith)
shift_down-zero (suc k) y (z ∷ ys) h small =
    let e : 0 + 1 ≡ 1 = omega arith in
    shift_down-suc k 0 z (y ∷ z ∷ ys) refl (omega arith) (omega arith)
    ∙ ap (λ i. shift_down k i (z ∷ z ∷ ys)) e
    ∙ shift_down-cons k 0 z (z ∷ ys) (omega arith) (omega arith)
    ∙ ap (cons_in z) (shift_down-zero k z ys (omega arith) (omega arith))

pub moved_down : ℕ → ℕ → List ℕ → List ℕ
moved_down k pos [] = []
moved_down k zero (y ∷ ys) = take k ys ++ drop k (y ∷ ys)
moved_down k (suc pos) (x ∷ xs) = x ∷ moved_down k pos xs

pub shift_down-moved_down :
    (k pos : ℕ) (xs : List ℕ)
    → pos + k < length xs
    → pos + k < 2 ^ 31
    → shift_down k pos xs ≡ some (moved_down k pos xs)
unfolding moved_down
shift_down-moved_down k pos [] h small = absurd (omega arith)
shift_down-moved_down k zero (y ∷ ys) h small = shift_down-zero k y ys (omega arith) (omega arith)
shift_down-moved_down k (suc pos) (x ∷ xs) h small =
    shift_down-cons k pos x xs (omega arith) (omega arith)
    ∙ ap (cons_in x) (shift_down-moved_down k pos xs (omega arith) (omega arith))

pub length-moved_down :
    (k pos : ℕ) (xs : List ℕ) → pos + k < length xs → length (moved_down k pos xs) ≡ length xs
unfolding moved_down
length-moved_down k pos [] h = refl
length-moved_down k zero (y ∷ ys) h =
    omega
      (arith, length-append (take k ys) (drop k (y ∷ ys)), length-take k ys, length-drop k (y ∷ ys))
length-moved_down k (suc pos) (x ∷ xs) h = omega (arith, length-moved_down k pos xs)

take-take_append_le :
    (m k : ℕ) (xs ys : List ℕ) → m ≤ k → k ≤ length xs → take m (take k xs ++ ys) ≡ take m xs
take-take_append_le zero k xs ys h l = refl
take-take_append_le (suc m) zero xs ys h l = absurd (omega arith)
take-take_append_le (suc m) (suc k) [] ys h l = absurd (omega arith)
take-take_append_le (suc m) (suc k) (x ∷ xs) ys h l =
    ap (λ r. x ∷ r) (take-take_append_le m k xs ys (omega arith) (omega arith))

-- The first cells are the old ones without that at `pos`.
pub take-moved_down :
    (m k pos : ℕ) (xs : List ℕ)
    → m ≤ k
    → pos + k < length xs
    → take (pos + m) (moved_down k pos xs) ≡ take pos xs ++ take m (drop (suc pos) xs)
unfolding moved_down
take-moved_down m k pos [] l h = absurd (omega arith)
take-moved_down m k zero (y ∷ ys) l h =
    let e : 0 + m ≡ m = omega arith in
    rw e (take-take_append_le m k ys (drop k (y ∷ ys)) l (omega arith))
take-moved_down m k (suc pos) (x ∷ xs) l h =
    let e : suc pos + m ≡ suc (pos + m) = omega arith in
    rw e (ap (λ r. x ∷ r) (take-moved_down m k pos xs l (omega arith)))
