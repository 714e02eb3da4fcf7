-- ===== src/Object/Grown.antt =====
-- What the functions that add an entry to an object of src/riak_object.c leave in its array.
use mathlib.Core.Path.{subst}
use riak_c_client.Base.{
  write_at-none, sym, ◌⊎◌, inl, inr, ℕ, ◌+◌, ◌^◌, ◌<◌, ◌≡◌, refl, ap, ◌∙◌, Option, none, some, List,
  [], ◌∷◌, ◌++◌, map, length, write_at, arith, length-append, length-map,
}
use riak_c_client.Memory.{Cmd, Heap, Config, fault, ok}
use riak_c_client.Memory.Returns.{Returns, returns}
use riak_c_client.Memory.Rich.{IsRich, bind_known, config_clean_allocate-Grants}
use riak_c_client.Messages.Listing.Items.{write_at-append, realloc-Rich}
use riak_c_client.Base.{map-append, suc, next_int-small}
use riak_c_client.Utils.{array_realloc}
use riak_c_client.Object.Grow.{Slots, room_for_one, store_new, new_entry}

-- The array holds these entries and no other cell; without an entry it may be NULL.
abbrev pub Holds : {A : Type 0} → List A → Slots A → Type 0
Holds xs slots =
    (slots.count ≡ length xs)
    × (((xs ≡ []) × (slots.cells ≡ none)) ⊎ (slots.cells ≡ some (map (λ x. some x) xs)))

module _ {A : Type 0} {cfg : Config} (rich : IsRich cfg) (h : Heap) where
  first_cell-Rich :
      (n : ℕ) → Returns (λ r g. r ≡ some (none ∷ [])) (room_for_one {A = A} cfg n none h)
  unfolding room_for_one
  first_cell-Rich n = bind_known _ (config_clean_allocate-Grants rich 8 h) λ g. returns refl

  one_more-Rich :
      (old : List (Option A))
      → suc (length old) < 2 ^ 31
      → Returns (λ r g. r ≡ some (old ++ (none ∷ []))) (room_for_one cfg (length old) (some old) h)
  unfolding room_for_one
  one_more-Rich old small =
      let one : length old + 1 ≡ suc (length old) = omega arith in
      rw (next_int-small (length old) small, ← one)
        (bind_known _ (realloc-Rich rich old 1 h (omega arith)) λ g. returns refl)

  room-Rich :
      (xs : List A) (slots : Slots A)
      → length xs + 1 < 2 ^ 31
      → Holds xs slots
      → Returns
          (λ r g. r ≡ some (map (λ x. some x) xs ++ (none ∷ [])))
          (room_for_one cfg slots.count slots.cells h)
  room-Rich xs slots small (counted, inl (empty, null)) =
      rw (null, empty) (first_cell-Rich slots.count)
  room-Rich xs slots small (counted, inr held) =
      let size : length (map (λ (x : A). some x) xs) ≡ length xs = length-map (λ x. some x) xs in
      rw (held, counted, ← size) (one_more-Rich (map (λ x. some x) xs) (omega (arith, size)))

module _ {A : Type 0} {cfg : Config} (make : Cmd (Option A)) {x : A} (xs : List A) (count : ℕ)
    (cells : Option (List (Option A))) (h : Heap) where
  -- With an allocator that always has memory, riak_object_new_link, riak_object_new_usermeta and
  -- riak_object_new_index, whose `make` makes the new entry, on an array of fewer than 2 ^ 31 - 1 entries,
  -- return the new entry, and the array holds the same entries and this one behind them.
  pub new_entry-Holds :
      IsRich cfg
      → ((g : Heap) → Returns (λ r k. r ≡ some x) (make g))
      → length xs + 1 < 2 ^ 31
      → Holds xs (record { count = count; cells = cells })
      → Returns
          (λ r g. (r.0 ≡ some x) × Holds (xs ++ (x ∷ [])) r.1)
          (new_entry cfg make (record { count = count; cells = cells }) h)
  unfolding new_entry store_new
  new_entry-Holds rich makes small (counted, held) = bind_known _ room λ g.
      bind_known _ (makes g) λ k.
        rw (placed, next_int-small count (omega (arith, counted)))
          (returns (
            refl,
            (
              omega (arith, length-append xs (x ∷ []), counted),
              inr (ap some (sym (map-append (λ y. some y) xs (x ∷ [])))),
            ),
          ))
    where
      full : List (Option A)
      full = map (λ y. some y) xs

      size : count ≡ length full
      size = counted ∙ sym (length-map (λ y. some y) xs)

      room : Returns (λ r g. r ≡ some (full ++ (none ∷ []))) (room_for_one cfg count cells h)
      room = room-Rich rich h xs (record { count = count; cells = cells }) small (counted, held)

      placed : write_at (full ++ (none ∷ [])) count (some x) ≡ some (full ++ (some x ∷ []))
      placed =
          subst (λ n. write_at (full ++ (none ∷ [])) n (some x) ≡ some (full ++ (some x ∷ [])))
            (sym size) (write_at-append full [] none (some x))

-- Where riak_array_realloc has no memory for one more cell behind a full array of fewer than 2 ^ 31 - 1 entries, and the new entry is made or
-- not, riak_object_new_link and the like store it behind the block.
pub new_entry-fault :
    {A : Type 0} (cfg : Config) (make : Cmd (Option A)) (xs : List A) (count : ℕ) (h g k : Heap)
    {made : Option A}
    → count ≡ length xs
    → count + 1 < 2 ^ 31
    → array_realloc cfg none (map (λ x. some x) xs) 8 count (suc count) h ≡ ok none g
    → make g ≡ ok made k
    → new_entry cfg make (record { count = count; cells = some (map (λ x. some x) xs) }) h ≡ fault
unfolding new_entry room_for_one store_new
new_entry-fault cfg make xs count h g k {made} counted small refused makes = rw (
  next_int-small count (omega arith),
  refused,
  makes,
  write_at-none (map (λ x. some x) xs) count made (omega (arith, length-map (λ x. some x) xs)),
)
