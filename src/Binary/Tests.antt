-- ===== src/Binary/Tests.antt =====
-- Runs of src/riak_binary.c, and the theorems at concrete binaries.
use riak_c_client.Base.{is_some, ◌≡◌, refl, true, false, some, [], ◌∷◌, arith}
use riak_c_client.Memory.{Heap, Config}
use riak_c_client.Memory.Returns.{Returns}
use riak_c_client.Binary.{Binary, Ordering, compare_binary, memcmp, memcmp_blocks, copy}
use riak_c_client.Binary.Print.{HasBytes}
use riak_c_client.Binary.Blocks.{IsEqualCopy, Balanced, copy-IsEqualCopy}

abbrev rich : Config
rich = record { malloc_fn = some (λ n size. true) }

abbrev start : Heap
start = record { calls = 0; mallocs = 0; frees = 0 }

-- "ab", "ac" and a binary of a tab and "b".
abbrev ab : Binary
ab = record { len = 2; data_block = some (97 ∷ 98 ∷ []); managed = true }

abbrev ac : Binary
ac = record { len = 2; data_block = some (97 ∷ 99 ∷ []); managed = false }

abbrev abc : Binary
abc = record { len = 3; data_block = some (97 ∷ 98 ∷ 99 ∷ []); managed = false }

abbrev tab_b : Binary
tab_b = record { len = 2; data_block = some (9 ∷ 98 ∷ 0 ∷ []); managed = false }

ab-HasBytes : HasBytes ab
ab-HasBytes = record { within = omega arith }

ac-HasBytes : HasBytes ac
ac-HasBytes = record { within = omega arith }

abc-HasBytes : HasBytes abc
abc-HasBytes = record { within = omega arith }

ab-ac : compare_binary ab ac ≡ some Ordering.lt
unfolding compare_binary memcmp memcmp_blocks
ab-ac = refl

ac-abc : compare_binary ac abc ≡ some Ordering.lt
unfolding compare_binary memcmp memcmp_blocks
ac-abc = refl

copy-IsEqualCopy_example :
    Returns
      (λ b g. IsEqualCopy ab b × (is_some b ≡ true) × Balanced start b g)
      (copy rich (some ab) start)
copy-IsEqualCopy_example = copy-IsEqualCopy rich ab start ab-HasBytes
