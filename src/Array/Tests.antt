-- ===== src/Array/Tests.antt =====
-- Runs of the array, and the theorems at concrete arrays.
use riak_c_client.Base.{◌≡◌, refl, true, none, some, [], ◌∷◌, arith}
use riak_c_client.Error.{eriak_ok}
use riak_c_client.Memory.{
  Heap, ok, out_of_fuel, Config, config_clean_allocate, call_malloc, free_if,
}
use riak_c_client.Memory.Returns.{Returns}
use riak_c_client.Utils.{array_realloc, realloc_u32, copy_cells}
use riak_c_client.Array.{
  Array, new, push, grow, resize, regrown, insert, place, remove, shift_up, shift_down, when_grown,
}
use riak_c_client.Array.Valid.{IsValid, contents, Balanced}
use riak_c_client.Array.Refine.{Done, insert_at, insert-insert_at}
use riak_c_client.Array.Faults.{new-push_endless}
use riak_c_client.Memory.Rich.{IsRich}

-- An allocator that always has memory.
abbrev rich : Config
rich = record { malloc_fn = some (λ n bytes. true) }

abbrev start : Heap
start = record { calls = 0; mallocs = 2; frees = 0 }

-- Two elements in three cells, and in two.
abbrev spare : Array
spare = record { cfg = rich; length = 2; capacity = 3; slots = 7 ∷ 9 ∷ 0 ∷ [] }

abbrev full : Array
full = record { cfg = rich; length = 2; capacity = 2; slots = 7 ∷ 9 ∷ [] }

insert_in_full :
    insert full 1 8 start
    ≡ ok
        (eriak_ok, some (record full { length = 3; capacity = 4; slots = 7 ∷ 8 ∷ 9 ∷ 0 ∷ [] }))
        (record { calls = 1; mallocs = 3; frees = 1 })
unfolding insert resize grow array_realloc realloc_u32 copy_cells config_clean_allocate call_malloc
    free_if regrown when_grown place shift_up
insert_in_full = refl

remove_first : remove spare 0 ≡ some (eriak_ok, record spare { length = 1; slots = 9 ∷ 0 ∷ 0 ∷ [] })
unfolding remove shift_down
remove_first = refl

spare-IsValid : IsValid spare
spare-IsValid = omega arith

full-IsValid : IsValid full
full-IsValid = omega arith

insert-insert_at_example :
    Returns
      (λ r g. Done (insert_at 1 8 (contents full)) r × Balanced start r.1 g)
      (insert full 1 8 start)
insert-insert_at_example = insert-insert_at full-IsValid (omega arith) start 1 8 (omega arith)

rich-IsRich : IsRich rich
rich-IsRich = record { alloc = λ n bytes. true; is_set = refl; always = λ n bytes. refl }

new-push_endless_example :
    Returns
      (λ r g.
        (ra : Array) × (r ≡ (eriak_ok, some ra))
        × (grow 100 ra.capacity 1 ≡ none)
        × (push ra 7 start ≡ out_of_fuel)
        × (insert ra 0 7 start ≡ out_of_fuel))
      (new rich 0 start)
new-push_endless_example = new-push_endless 100 0 7 start start rich-IsRich
