-- ===== src/Utils/Copy.antt =====
-- riak_strlcpy of src/riak_utils.c: which strings fit.
use riak_c_client.Base.{
  ℕ, Option, zero, suc, ◌+◌, ◌≤◌, ◌<◌, ◌≡◌, refl, ap, ◌∙◌, none, some, List, [], ◌∷◌, ◌++◌, arith,
  length, take, drop, ltb, length-append, true, false, take_all, length-take, append_assoc,
}
use riak_c_client.Utils.{c_string, copied, strlcpy}

-- A string behind its first byte.
tail_of :
    (b : ℕ) (rest : Option (List ℕ)) {s : List ℕ}
    → (elim rest as (λ x. Option (List ℕ)) [ none ↦ none | some t ↦ some (suc b ∷ t) ]) ≡ some s
    → (t : List ℕ) × (rest ≡ some t) × (s ≡ suc b ∷ t)
tail_of b none e = cc
tail_of b (some t) e = (t, refl, cc)

-- The loop takes the string, or so much of it as there is room for.
copied-take :
    (room : ℕ) (src : List ℕ) {s : List ℕ}
    → c_string src ≡ some s
    → copied room src ≡ some (take room s)
unfolding copied c_string
copied-take zero src e = refl
copied-take (suc room) [] e = cc
copied-take (suc room) (zero ∷ src) {s} e = let empty : s ≡ [] = cc in rw empty refl
copied-take (suc room) (suc b ∷ src) e =
    let (t, found, split) = tail_of b (c_string src) e in
    rw (split, copied-take room src found) refl

module _ (dst src : List ℕ) {s : List ℕ} (n : ℕ) (found : c_string src ≡ some s)
    (whole : length dst ≡ suc n) where
  -- A string of at most `n` bytes, for a target of `n + 1` cells whose number is given as the size: riak_strlcpy
  -- copies it with its NUL, leaves the cells behind, and returns its length.
  pub strlcpy-fits :
      length s ≤ n → strlcpy dst src (suc n) ≡ some (s ++ (0 ∷ drop (length s + 1) dst), length s)
  unfolding strlcpy
  strlcpy-fits short =
      let size : length (s ++ (0 ∷ [])) ≡ length s + 1 = length-append s (0 ∷ []) in
      let within : ltb (length dst) (0 + length (s ++ (0 ∷ []))) ≡ false = ground (arith, size) in
      let got : copied (suc n) src ≡ some s =
        copied-take (suc n) src found ∙ ap some (take_all (suc n) s (omega arith)) in
      rw (got, within, size, append_assoc s (0 ∷ []) (drop (length s + 1) dst), strlcpy) refl

  -- A longer string: riak_strlcpy writes behind the target.
  pub strlcpy-past : n < length s → strlcpy dst src (suc n) ≡ none
  unfolding strlcpy
  strlcpy-past long =
      let size : length (take (suc n) s ++ (0 ∷ [])) ≡ suc n + 1 =
        omega (arith, length-append (take (suc n) s) (0 ∷ []), length-take (suc n) s) in
      let past : ltb (length dst) (0 + length (take (suc n) s ++ (0 ∷ []))) ≡ true =
        ground (arith, size) in
      rw (copied-take (suc n) src found, past, strlcpy) refl
