-- ===== src/Object/Loops.antt =====
-- Loops over arrays whose rounds succeed, with the blocks that they take and give back.
use riak_c_client.Base.{ℕ, Option, some, List, [], ◌∷◌, map, length, total, arith}
use riak_c_client.Memory.{Heap, Cmd}
use riak_c_client.Memory.Exact.{Gives, pure-Gives, recount, bind-Gives}
use riak_c_client.Object.Copy.{each, free_each}

-- A loop whose rounds succeed.
module _ {V A B : Type 0} (from : V → A) (to : V → B) (cost : V → ℕ) (one : A → Cmd (Option B))
    (one-Gives : (v : V) (h : Heap) → Gives h (some (to v)) (cost v) 0 (one (from v) h)) where
  pub each-Gives :
      (vs : List V) (h : Heap)
      → Gives h (some (map to vs)) (total cost vs) 0 (each one (length vs) (map from vs) h)
  unfolding each
  each-Gives [] h = pure-Gives (some []) h
  each-Gives (v ∷ vs) h =
      recount (bind-Gives _ (one-Gives v h) λ g. bind-Gives _ (each-Gives vs g) λ k. pure-Gives _ k)
        (omega arith) (omega arith)

-- A loop that frees what it has made.
module _ {A B : Type 0} (to : A → B) (cost : A → ℕ) where
  pub free_each-Gives :
      (one : B → Cmd (Unit {0}))
      → ((x : A) (h : Heap) → Gives h tt 0 (cost x) (one (to x) h))
      → (xs : List A) (h : Heap)
      → Gives h tt 0 (total cost xs) (free_each one (length xs) (map to xs) h)
  unfolding free_each
  free_each-Gives one one-Gives [] h = pure-Gives _ h
  free_each-Gives one one-Gives (x ∷ xs) h =
      bind-Gives _ (one-Gives x h) λ g. free_each-Gives one one-Gives xs g
