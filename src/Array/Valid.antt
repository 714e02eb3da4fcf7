-- ===== src/Array/Valid.antt =====
-- The representation invariant of src/riak_array.c, and the growth of the block.
use riak_c_client.Base.{
  ℕ, zero, suc, ◌+◌, ◌-◌, ◌*◌, ◌%◌, ◌^◌, ◌≤◌, ◌<◌, ◌≡◌, ◌≢◌, refl, ap, ◌∙◌, Bool, true, false,
  Option, none, some, List, [], ◌∷◌, ◌++◌, arith, ltb, lt→ltb, le→ltb, take, drop, Bool-cases, inl,
  inr, length-append, length-drop, length-replicate, replicate, u32_mod, u64_mod, mul64,
}
use riak_c_client.Base
use riak_c_client.Error.{RiakError, eriak_ok, eriak_out_of_memory}
use riak_c_client.Memory.{Heap}
use riak_c_client.Memory.Returns
use riak_c_client.Memory.Returns.{Returns, returns, Moved, free_if-Returns}
use riak_c_client.Utils.Growth.{Reallocated, regrown_cells, realloc_u32-Returns}
use native.Mathlib.Decide.{ℕ_discrete}
use riak_c_client.Utils.{array_realloc}
use riak_c_client.Array.{Array, free, grow, grow_fuel, resize, regrown, sizeof_ptr}

-- The block has `capacity` cells, at least one, and the elements lie in it.
pub record IsValid (ra : Array) : Type 0 where
  pub block : Base.length ra.slots ≡ ra.capacity
  pub fits : ra.length ≤ ra.capacity
  pub positive : 0 < ra.capacity

-- The elements that a client sees.
abbrev pub contents : Array → List ℕ
contents ra = take ra.length ra.slots

-- The blocks that an array owns: its structure and its cells.
abbrev pub owned : Option Array → ℕ
owned none = 0
owned (some ra) = 2

-- From an array before to what is left of it after, exactly the blocks that it owns are live.
abbrev pub Balanced : Heap → Option Array → Heap → Type 0
Balanced h r g = g.mallocs + h.frees + 2 ≡ h.mallocs + g.frees + owned r

-- An array with the same elements and room for one more.
pub record HasRoom (ra ra' : Array) : Type 0 where
  pub same_length : ra'.length ≡ ra.length
  pub same : contents ra' ≡ contents ra
  pub block : Base.length ra'.slots ≡ ra'.capacity
  pub room : ra.length < ra'.capacity
  pub bounded : ra'.capacity ≤ 2 * ra.capacity

-- What riak_array_resize may answer: success with room, or no memory and no array.
abbrev pub Resized : Array → RiakError × Option Array → Type 0
Resized ra (eriak_ok, some ra') = HasRoom ra ra'
Resized ra (eriak_out_of_memory, none) = Unit {0}
Resized ra _ = ⊥

pub grow-double :
    (fuel cap : ℕ) → 0 < cap → cap < 2 ^ 62 → grow (suc (suc fuel)) cap (cap + 1) ≡ some (cap * 2)
unfolding grow
grow-double fuel cap pos small = ground arith

take-append_le : (n : ℕ) (xs ys : List ℕ) → n ≤ Base.length xs → take n (xs ++ ys) ≡ take n xs
take-append_le zero xs ys h = refl
take-append_le (suc n) [] ys h = absurd (omega arith)
take-append_le (suc n) (x ∷ xs) ys h = ap (λ r. x ∷ r) (take-append_le n xs ys (omega arith))

length-regrown :
    (xs : List ℕ) (new : ℕ) → Base.length xs ≤ new → Base.length (regrown_cells 0 xs new) ≡ new
length-regrown xs new h =
    let zeroes : List ℕ = replicate new 0 in
    omega (
      arith,
      length-append xs (drop (Base.length xs) zeroes),
      length-drop (Base.length xs) zeroes,
      length-replicate {A = ℕ} new 0,
    )

-- riak_array_free gives back what the array owns.
pub free-Returns : (r : Option Array) (h : Heap) → Returns (λ _. Moved h 0 (owned r)) (free r h)
unfolding free
free-Returns none h = returns (omega arith)
free-Returns (some ra) h =
    Returns.bind (free_if-Returns true h)
      λ _ g m. Returns.mono (free_if-Returns true g) λ _ k n. omega arith

module _ {ra : Array} (v : IsValid ra) (small : ra.capacity < 2 ^ 30) (h : Heap) where
  regrown-Returns :
      (block : Option (List ℕ)) (g : Heap)
      → Reallocated (regrown_cells 0 ra.slots (ra.capacity * 2)) h block g
      → Returns (λ r k. Resized ra r × Balanced h r.1 k) (regrown ra (ra.capacity * 2) block g)
  unfolding regrown
  regrown-Returns none g m =
      Returns.bind (free-Returns (some ra) g) λ _ k n. returns (tt, omega arith)
  regrown-Returns (some block) g m = returns (
    record {
      same_length = refl;
      same = rw (m.1) (
          take-append_le ra.length ra.slots
            (drop (Base.length ra.slots) (replicate (ra.capacity * 2) 0)) (omega arith));
      block = rw (m.1) (length-regrown ra.slots (ra.capacity * 2) (omega arith));
      room = omega arith;
      bounded = omega arith;
    },
    omega arith,
  )

  full-Returns :
      ra.length ≡ ra.capacity
      → Returns (λ r k. Resized ra r × Balanced h r.1 k) (resize ra (ra.length + 1) h)
  unfolding resize array_realloc
  full-Returns full =
      let c = ra.capacity in
      let grows : ltb c (ra.length + 1) ≡ true = ground arith in
      let doubled : grow grow_fuel c (ra.length + 1) ≡ some (c * 2) =
        rw full (grow-double 63 c (omega arith) (omega arith)) in
      let old : c % u32_mod ≡ c = omega arith in
      let new : (c * 2) % u32_mod ≡ c * 2 = omega arith in
      rw (grows, doubled, old, new)
        (Returns.bind
          (realloc_u32-Returns ra.cfg 0 ra.slots sizeof_ptr c (c * 2) h (omega arith) (omega arith))
          regrown-Returns)

  -- riak_array_resize to one more than the length makes room and keeps the elements, or frees the
  -- array and says that there is no memory.
  pub resize-Returns :
      Returns (λ r g. Resized ra r × Balanced h r.1 g) (resize ra (ra.length + 1) h)
  resize-Returns = elim (ℕ_discrete ra.length ra.capacity) [
    | yes full ↦ full-Returns full
    | no ne ↦ roomy ne
  ]
    where
      roomy :
          ra.length ≢ ra.capacity
          → Returns (λ r g. Resized ra r × Balanced h r.1 g) (resize ra (ra.length + 1) h)
      roomy ne =
          let stays : ltb ra.capacity (ra.length + 1) ≡ false = ground arith in
          unfold resize in
          rw stays (
            returns (
              record {
                same_length = refl;
                same = refl;
                block = v.block;
                room = omega arith;
                bounded = omega arith;
              },
              omega arith,
            ))
