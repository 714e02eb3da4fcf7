-- ===== src/Array/Faults.antt =====
-- Where src/riak_array.c leaves its block or does not end.
use riak_c_client.Base.{
  ℕ, zero, suc, ◌+◌, ◌-◌, ◌*◌, ◌^◌, ◌≤◌, ◌<◌, ◌≡◌, refl, Option, none, some, List, arith, set,
  get_elem?-some, get_elem?-none, length-set, int_of, sub64, int_of-small, mul64, ◌∙◌,
}
use riak_c_client.Base
use riak_c_client.Error.{eriak_ok}
use riak_c_client.Memory.{Heap, Config, out_of_fuel}
use riak_c_client.Memory.Returns.{Returns, returns}
use riak_c_client.Memory.Rich.{IsRich, bind_known, config_clean_allocate-Grants}
use riak_c_client.Array.{
  Array, grow, grow_fuel, remove, shift_down, resize, push, insert, new, fresh, sizeof_array,
  sizeof_ptr,
}
use riak_c_client.Array.Valid.{IsValid}
use riak_c_client.Array.Shift.{shift_down-suc}

shift_down-past :
    (k j : ℕ) (xs : List ℕ)
    → j + suc k ≡ Base.length xs
    → Base.length xs < 2 ^ 31
    → shift_down (suc k) j xs ≡ none
unfolding shift_down
shift_down-past zero j xs e small = ground (arith, get_elem?-none xs (j + 1))
shift_down-past (suc k) j xs e small =
    let (v, got) = get_elem?-some xs (j + 1) (omega arith) in
    shift_down-suc (suc k) j v xs got (omega arith) (omega arith)
    ∙ shift_down-past k (j + 1) (set xs j v) (omega (arith, length-set xs j v))
        (omega (arith, length-set xs j v))

-- On a valid array of a capacity below 2 ^ 31 that is full, riak_array_remove at any position below
-- the length reads one cell behind the block.
pub remove-full :
    {ra : Array} (v : IsValid ra) (pos : ℕ)
    → ra.capacity < 2 ^ 31
    → ra.length ≡ ra.capacity
    → pos < ra.length
    → remove ra pos ≡ none
unfolding remove
remove-full {ra} v pos small full lt =
    let k = ra.length - pos - 1 in
    let e : int_of pos ≡ pos = int_of-small pos (omega arith) in
    let rounds : sub64 ra.length pos ≡ suc k = omega arith in
    ground (arith, e, rounds, shift_down-past k pos ra.slots)

-- The doubling loop of riak_array_resize has no result on any fuel when the capacity is 0.
grow-zero : (fuel size : ℕ) → grow fuel 0 (suc size) ≡ none
unfolding grow
grow-zero zero size = refl
grow-zero (suc fuel) size = ground (arith, grow-zero fuel size)

push-empty : (cfg : Config) (x : ℕ) (h : Heap) → push (fresh cfg 0) x h ≡ out_of_fuel
unfolding push resize
push-empty cfg x h = rw (grow-zero grow_fuel 0) refl

insert-empty : (cfg : Config) (x : ℕ) (h : Heap) → insert (fresh cfg 0) 0 x h ≡ out_of_fuel
unfolding insert resize
insert-empty cfg x h = rw (grow-zero grow_fuel 0) refl

-- With an allocator that always has memory, riak_array_new for 0 elements returns success with an array that no
-- element can be put into: the doubling loop of riak_array_resize from its capacity, for any size but 0, has no
-- result on any fuel, and so riak_array_push and riak_array_insert at position 0 do not come to an end.
pub new-push_endless :
    {cfg : Config} (fuel size x : ℕ) (h k : Heap)
    → IsRich cfg
    → Returns
        (λ r g.
          (ra : Array) × (r ≡ (eriak_ok, some ra))
          × (grow fuel ra.capacity (suc size) ≡ none)
          × (push ra x k ≡ out_of_fuel)
          × (insert ra 0 x k ≡ out_of_fuel))
        (new cfg 0 h)
unfolding new
new-push_endless {cfg} fuel size x h k rich =
    bind_known _ (config_clean_allocate-Grants rich sizeof_array h) λ g.
      bind_known _ (config_clean_allocate-Grants rich (mul64 sizeof_ptr 0) g) λ l.
        returns (fresh cfg 0, refl, grow-zero fuel size, push-empty cfg x k, insert-empty cfg x k)
