-- ===== src/Array/Refine.antt =====
-- The operations of src/riak_array.c against plain lists.
use mathlib.Core.Path.{subst}
use riak_c_client.Base.{
  ℕ, zero, suc, ◌+◌, ◌-◌, ◌*◌, ◌%◌, ◌^◌, ◌≤◌, ◌<◌, ◌≡◌, ◌≢◌, refl, sym, ap, ap₂, ◌∙◌, Bool, true,
  false, Option, none, some, List, [], ◌∷◌, ◌++◌, arith, ltb, append-nil, ◌⊎◌, if◌then◌else◌, take,
  drop, set, get_elem?, length-set, take-take, drop-take, drop_all, take-suc-set, length-take,
  get_elem?-take, get_elem?-none, get_elem?-some, take-set_within, set_past, Bool-cases, inl, inr,
  lt_int64, int_of, add64, sub64, int_of-small, lt_int64-small,
}
use native.Mathlib.Decide.{ℕ_discrete, dec_lt}
use riak_c_client.Base
use riak_c_client.Error.{RiakError, eriak_ok, eriak_out_of_memory, eriak_out_of_range}
use riak_c_client.Memory.{Heap}
use riak_c_client.Memory.Returns
use riak_c_client.Memory.Returns.{Returns, returns, Moved}
use riak_c_client.Array.{Array, place, insert, push, remove, pop, get, set_elem, when_grown}
use riak_c_client.Array.Valid.{IsValid, contents, Balanced, HasRoom, Resized, resize-Returns}
use riak_c_client.Array.Shift.{
  moved_up, moved_down, shift_up-moved_up, length-moved_up, take-set-moved_up,
  shift_down-moved_down, length-moved_down, take-moved_down, take-suc-get,
}

-- What a client of the array expects: `x` put in at `pos`, and the element at `pos` taken out.
pub insert_at : ℕ → ℕ → List ℕ → List ℕ
insert_at pos x xs = take pos xs ++ (x ∷ drop pos xs)

pub remove_at : ℕ → List ℕ → List ℕ
remove_at pos xs = take pos xs ++ drop (suc pos) xs

-- `ra'` is a valid array of the elements `xs`.
pub record Holds (xs : List ℕ) (ra' : Array) : Type 0 where
  pub valid : IsValid ra'
  pub elements : contents ra' ≡ xs

-- Success with the elements `xs`, or no memory and no array.
abbrev pub Done : List ℕ → RiakError × Option Array → Type 0
Done xs (eriak_ok, some ra') = Holds xs ra'
Done xs (eriak_out_of_memory, none) = Unit {0}
Done xs _ = ⊥

-- An array whose block has room for one more element.
record IsRoomy (ra : Array) : Type 0 where
  small : ra.capacity < 2 ^ 31
  block : Base.length ra.slots ≡ ra.capacity
  room : ra.length < ra.capacity

module _ (ra : Array) (r : IsRoomy ra) (pos x : ℕ) where
  abbrev Placed : Type 0
  Placed = (ra' : Array) × (place ra pos x ≡ some ra') × Holds (insert_at pos x (contents ra)) ra'

  insert_at-end : pos ≡ ra.length → insert_at pos x (contents ra) ≡ contents ra ++ (x ∷ [])
  unfolding insert_at
  insert_at-end e = rw (
    e,
    take-take ra.length ra.length ra.slots (omega arith),
    drop_all ra.length (take ra.length ra.slots) (omega (arith, length-take ra.length ra.slots)),
  )

  place-end : pos ≡ ra.length → Placed
  unfolding place
  place-end e = (
    record ra { length = suc ra.length; slots = set ra.slots pos x },
    ground arith,
    record {
      valid = omega (arith, length-set ra.slots pos x);
      elements = rw (insert_at-end e) (rw e (take-suc-set ra.length ra.slots x (omega arith)));
    },
  )

  place-inside : pos < ra.length → Placed
  unfolding place insert_at
  place-inside lt =
      let k = ra.length - pos in
      let end : suc ra.length ≡ pos + suc k = omega arith in
      let moved = moved_up k pos ra.slots in
      let len = length-moved_up k pos ra.slots (omega arith) in
      (
        record ra { length = suc ra.length; slots = set moved pos x },
        ground (arith, shift_up-moved_up k pos ra.slots, len, int_of-small ra.length),
        record {
          valid = omega (arith, length-set moved pos x);
          elements =
              ap (λ n. take n (set moved pos x)) end
              ∙ take-set-moved_up k pos x ra.slots (omega arith)
              ∙ ap₂ (λ a b. a ++ (x ∷ b)) (sym (take-take pos ra.length ra.slots (omega arith)))
                  (sym (drop-take pos ra.length ra.slots));
        },
      )

place-Placed : (ra : Array) (r : IsRoomy ra) (pos x : ℕ) → pos ≤ ra.length → Placed ra r pos x
place-Placed ra r pos x le = elim (ℕ_discrete pos ra.length) [
  | yes e ↦ place-end ra r pos x e
  | no ne ↦ place-inside ra r pos x (omega arith)
]

IsRoomy-of : (ra ra' : Array) → ra.capacity < 2 ^ 30 → HasRoom ra ra' → IsRoomy ra'
IsRoomy-of ra ra' small r = omega arith

module _ {ra : Array} (v : IsValid ra) (small : ra.capacity < 2 ^ 30) (h : Heap) where
  when_grown-Returns :
      (next : Array → Option Array) (xs : List ℕ)
      → ((ra' : Array) → HasRoom ra ra' → (new : Array) × (next ra' ≡ some new) × Holds xs new)
      → (r : RiakError × Option Array) (g : Heap) → Resized ra r × Balanced h r.1 g
      → Returns (λ r' k. Done xs r' × Balanced h r'.1 k) (when_grown next r g)
  unfolding when_grown
  when_grown-Returns next xs works (eriak_ok, some ra') g (room, even) =
      let (new, run, holds) = works ra' room in rw run (returns (holds, even))
  when_grown-Returns next xs works (eriak_out_of_memory, none) g (room, even) = returns (tt, even)
  when_grown-Returns next xs works r g (room, even) = absurd room

  -- riak_array_insert of a valid array of a capacity below 2 ^ 30, at a position up to its length,
  -- puts the element in at that position, keeping the others in order, and leaves a valid array; or
  -- it runs out of memory and then no array is left. It always returns, no access leaves the block,
  -- and no block leaks either way.
  pub insert-insert_at :
      (pos x : ℕ)
      → pos ≤ ra.length
      → Returns
          (λ r g. Done (insert_at pos x (contents ra)) r × Balanced h r.1 g)
          (insert ra pos x h)
  unfolding insert
  insert-insert_at pos x le =
      let e : add64 ra.length 1 ≡ ra.length + 1 = omega arith in
      let within : lt_int64 ra.length pos ≡ false = ground arith in
      rw (within, e)
        (Returns.bind (resize-Returns v small h) (
          when_grown-Returns (λ ra'. place ra' pos x) (insert_at pos x (contents ra))
            λ ra' room.
              let (new, run, holds) =
                place-Placed ra' (IsRoomy-of ra ra' small room) pos x (omega arith) in
              (new, run, subst (λ xs. Holds (insert_at pos x xs) new) room.same holds)))

  -- riak_array_push of a valid array of a capacity below 2 ^ 30 appends the element and leaves a
  -- valid array; or it runs out of memory and then no array is left. It always returns, no access
  -- leaves the block, and no block leaks.
  pub push-append :
      (x : ℕ) → Returns (λ r g. Done (contents ra ++ (x ∷ [])) r × Balanced h r.1 g) (push ra x h)
  unfolding push
  push-append x =
      let e : add64 ra.length 1 ≡ ra.length + 1 = omega arith in
      rw e (
        Returns.bind (resize-Returns v small h) (
          when_grown-Returns _ (contents ra ++ (x ∷ [])) λ ra' room. (
            record ra' { length = suc ra'.length; slots = set ra'.slots ra'.length x },
            ground (arith, room.room, room.block, room.same_length),
            record {
              valid = omega (arith, length-set ra'.slots ra'.length x);
              elements =
                  rw (take-suc-set ra'.length ra'.slots x (omega arith))
                    (ap (λ xs. xs ++ (x ∷ [])) room.same);
            },
          )))

-- What riak_array_get returns and stores for an element that is there or not.
abbrev pub found : Option ℕ → RiakError × Option ℕ
found none = (eriak_out_of_range, none)
found (some x) = (eriak_ok, some x)

module _ {ra : Array} (v : IsValid ra) (small : ra.capacity < 2 ^ 31) where
  -- riak_array_pop of a valid array of a capacity below 2 ^ 31 takes the last element off, hands it out and leaves a valid
  -- array of the others; on an empty array it says out of range and changes nothing.
  pub pop-last :
      ((ra.length ≡ 0) × (pop ra ≡ some (eriak_out_of_range, none, ra)))
      ⊎ ((x : ℕ) × (ra' : Array) × (pop ra ≡ some (eriak_ok, some x, ra'))
          × IsValid ra'
          × (contents ra ≡ contents ra' ++ (x ∷ [])))
  unfolding pop
  pop-last = elim (ℕ_discrete ra.length 0) [
    | yes e ↦ inl (e, ground arith)
    | no ne ↦
        let (x, got) = get_elem?-some ra.slots (ra.length - 1) (omega arith) in
        let last : sub64 ra.length 1 ≡ ra.length - 1 = omega arith in
        let n : ra.length ≡ suc (ra.length - 1) = omega arith in
        inr (
          x,
          record ra { length = ra.length - 1 },
          ground (arith, last, got),
          omega arith,
          ap (λ k. take k ra.slots) n
              ∙ sym (append-nil (take (suc (ra.length - 1)) ra.slots))
              ∙ take-suc-get (ra.length - 1) x ra.slots [] got,
        )
  ]

  -- On a valid array of a capacity below 2 ^ 31, riak_array_get reads the element at a position below the length, and says out of range at any
  -- other position below 2 ^ 63.
  pub get-get_elem? :
      (pos : ℕ) → pos < 2 ^ 63 → get ra pos ≡ some (found (get_elem? (contents ra) pos))
  unfolding get
  get-get_elem? pos h = elim (dec_lt pos ra.length) [
    | yes lt ↦
        let (x, got) = get_elem?-some ra.slots pos (omega arith) in
        ground (arith, got, get_elem?-take ra.length ra.slots pos lt)
    | no ge ↦
        ground
          (arith, get_elem?-none (contents ra) pos (omega (arith, length-take ra.length ra.slots)))
  ]

  -- On a valid array of a capacity below 2 ^ 31, riak_array_set replaces the element at a position below the length; at any other position
  -- below 2 ^ 63 it says out of range and the elements stay. Either way the array stays valid.
  pub set_elem-set :
      (pos x : ℕ)
      → pos < 2 ^ 63
      → (ra' : Array) × (set_elem ra pos x
          ≡ some (if ltb pos ra.length then eriak_ok else eriak_out_of_range, ra'))
        × Holds (set (contents ra) pos x) ra'
  unfolding set_elem
  set_elem-set pos x h = elim (dec_lt pos ra.length) [
    | yes lt ↦ (
      record ra { slots = set ra.slots pos x },
      ground arith,
      record {
        valid = omega (arith, length-set ra.slots pos x);
        elements = take-set_within ra.length ra.slots pos x lt;
      },
    )
    | no ge ↦ (
      ra,
      ground arith,
      record {
        valid = v;
        elements =
            sym (set_past (contents ra) pos x (omega (arith, length-take ra.length ra.slots)));
      },
    )
  ]

  -- riak_array_remove of a valid array of a capacity below 2 ^ 31 with a cell to spare, at a
  -- position below its length, takes out the element there and closes the gap, and leaves a valid
  -- array.
  pub remove-remove_at :
      (pos : ℕ)
      → pos < ra.length
      → ra.length < ra.capacity
      → (ra' : Array) × (remove ra pos ≡ some (eriak_ok, ra'))
        × Holds (remove_at pos (contents ra)) ra'
  unfolding remove remove_at
  remove-remove_at pos lt spare =
      let k = ra.length - pos in
      let moved = moved_down k pos ra.slots in
      let e : int_of pos ≡ pos = int_of-small pos (omega arith) in
      let rounds : sub64 ra.length pos ≡ k = omega arith in
      let last : ra.length - 1 ≡ pos + (k - 1) = omega arith in
      let fewer : k - 1 ≡ ra.length - suc pos = omega arith in
      (
        record ra { length = ra.length - 1; slots = moved },
        ground (arith, e, rounds, shift_down-moved_down k pos ra.slots),
        record {
          valid = omega (arith, length-moved_down k pos ra.slots);
          elements =
              ap (λ n. take n moved) last
              ∙ take-moved_down (k - 1) k pos ra.slots (omega arith) (omega arith)
              ∙ ap₂ (λ a b. a ++ b) (sym (take-take pos ra.length ra.slots (omega arith)))
                  (ap (λ n. take n (drop (suc pos) ra.slots)) fewer
                    ∙ sym (drop-take (suc pos) ra.length ra.slots));
        },
      )
