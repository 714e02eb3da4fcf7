-- ===== src/Messages/Listing/Items.antt =====
-- The two growing vectors of a streamed listing, with an allocator that always has memory.
use mathlib.Core.Path.{subst}
use riak_c_client.Base.{
  ℕ, zero, suc, ◌+◌, ◌%◌, ◌^◌, ◌≤◌, ◌<◌, ◌≡◌, refl, ap, ◌∙◌, true, Option, none, some, List, [],
  ◌∷◌, ◌++◌, map, arith, length, replicate, take, drop, write_at, mul64, add32, u32_mod, take-take,
  append_assoc, length-append,
}
use riak_c_client.Memory.{Heap, Config}
use riak_c_client.Memory.Returns
use riak_c_client.Memory.Returns.{Returns, returns, free_if-Returns}
use riak_c_client.Memory.Rich.{
  IsRich, bind_known, cfg_malloc-Grants, config_allocate-Grants, config_clean_allocate-Grants,
}
use riak_c_client.Utils.{array_realloc, realloc_u32}
use riak_c_client.Utils.Growth.{copy_cells-eq}
use riak_c_client.Binary
use riak_c_client.Binary.{Binary, PbBinary, cells, true_len, sizeof_binary}
use riak_c_client.Binary.Order.{bytes}
use riak_c_client.Binary.Blocks.{copy_bytes-take}
use riak_c_client.Object.RoundTrip.{take-true_len}
use riak_c_client.Messages.Listing.{copied, new_cells, grown, copy_items}

module _ {A : Type 0} where
  drop-replicate : (k n : ℕ) (a : A) → drop k (replicate (k + n) a) ≡ replicate n a
  drop-replicate zero n a = let e : 0 + n ≡ n = omega arith in rw e
  drop-replicate (suc k) n a =
      let e : suc k + n ≡ suc (k + n) = omega arith in rw e (drop-replicate k n a)

  pub write_at-append :
      (xs ys : List A) (x y : A) → write_at (xs ++ (x ∷ ys)) (length xs) y ≡ some (xs ++ (y ∷ ys))
  write_at-append [] ys x y = ground arith
  write_at-append (z ∷ xs) ys x y = ground (arith, write_at-append xs ys x y)

module _ {A : Type 0} {cfg : Config} (rich : IsRich cfg) where
  new_cells-Rich :
      (n : ℕ) (h : Heap) → Returns (λ r g. r ≡ some (replicate n none)) (new_cells {A = A} cfg n h)
  unfolding new_cells
  new_cells-Rich n h = bind_known _ (cfg_malloc-Grants rich (mul64 8 n) h) λ g. returns refl

  realloc_u32-Rich :
      (old : List (Option A)) (n : ℕ) (h : Heap)
      → Returns
          (λ r g. r ≡ some (old ++ replicate n none))
          (realloc_u32 cfg none old 8 (length old) (length old + n) h)
  unfolding realloc_u32
  realloc_u32-Rich old n h =
      bind_known _ (config_clean_allocate-Grants rich (mul64 (length old + n) 8) h) λ g.
        rw (copy_cells-eq {A = Option A} none old (length old) (length old + n) refl (omega arith))
          (Returns.bind (free_if-Returns true g)
            λ u k m. returns (ap (λ xs. some (old ++ xs)) (drop-replicate (length old) n none)))

  pub realloc-Rich :
      (old : List (Option A)) (n : ℕ) (h : Heap)
      → length old + n < 2 ^ 32
      → Returns
          (λ r g. r ≡ some (old ++ replicate n none))
          (array_realloc cfg none old 8 (length old) (length old + n) h)
  unfolding array_realloc
  realloc-Rich old n h small =
      let old_small : length old % u32_mod ≡ length old = omega arith in
      let new_small : (length old + n) % u32_mod ≡ length old + n = omega arith in
      rw (old_small, new_small, array_realloc) (realloc_u32-Rich old n h)

  -- Either vector grows by `n` NULL cells behind the old ones.
  pub grown-Rich :
      (old : List (Option A)) (n : ℕ) (h : Heap)
      → length old + n < 2 ^ 32
      → Returns (λ r g. r ≡ some (old ++ replicate n none)) (grown cfg (some old) (length old) n h)
  unfolding grown
  grown-Rich old n h small =
      let sum : add32 n (length old) ≡ length old + n = omega arith in
      rw (sum, grown) (realloc-Rich old n h small)

  pub first-Rich :
      (n : ℕ) (h : Heap)
      → Returns (λ r g. r ≡ some (replicate n none)) (grown {A = A} cfg none 0 n h)
  unfolding grown
  first-Rich n h = new_cells-Rich n h

-- The bytes that a field of a message stands for, all in its block.
abbrev pub item_bytes : PbBinary → List ℕ
item_bytes item = take item.len (cells item.data_block)

abbrev pub IsWhole : List PbBinary → Type 0
IsWhole [] = Unit {0}
IsWhole (item ∷ items) = (item.len ≤ length (cells item.data_block)) × IsWhole items

-- The copy that owns the bytes of an item.
abbrev pub copy_of : PbBinary → Binary
copy_of item = record {
  len = true_len item.len item.data_block;
  data_block = some (take (true_len item.len item.data_block) (cells item.data_block));
  managed = true;
}

pub bytes-copy_of : (item : PbBinary) → bytes (copy_of item) ≡ item_bytes item
bytes-copy_of item =
    let n = true_len item.len item.data_block in
    take-take n n (cells item.data_block) (omega arith) ∙ take-true_len item.len item.data_block

true_len-le :
    (n : ℕ) (block : Option (List ℕ))
    → n ≤ length (cells block)
    → true_len n block ≤ length (cells block)
true_len-le n none h = omega arith
true_len-le n (some block) h = h

module _ {cfg : Config} (rich : IsRich cfg) where
  pub binary-Rich :
      (item : PbBinary) (h : Heap)
      → item.len ≤ length (cells item.data_block)
      → Returns (λ r g. r ≡ some (copy_of item)) (Binary.new cfg item.len item.data_block h)
  unfolding Binary.new
  binary-Rich item h within = bind_known _ (config_allocate-Grants rich sizeof_binary h) λ g.
      bind_known _ (config_allocate-Grants rich (true_len item.len item.data_block) g) λ k.
        rw (copy_bytes-take item.len item.data_block (true_len-le item.len item.data_block within))
          (returns refl)

  -- The loop fills the NULL cells with copies of the items.
  pub copy_items-Rich :
      (items : List PbBinary) (existing i : ℕ) (old : List (Option Binary)) (h : Heap)
      → IsWhole items
      → length old ≡ i + existing
      → Returns
          (λ r g. r ≡ copied (old ++ map (λ item. some (copy_of item)) items))
          (copy_items cfg existing i items (old ++ replicate (length items) none) h)
  unfolding copy_items
  copy_items-Rich [] existing i old h whole len = returns refl
  copy_items-Rich (item ∷ items) existing i old h (within, whole) len =
      bind_known _ (binary-Rich item h within) λ g.
        let b : Option Binary = some (copy_of item) in
        let rest : List (Option Binary) = replicate (length items) none in
        let stored : write_at (old ++ (none ∷ rest)) (i + existing) b ≡ some (old ++ (b ∷ rest)) =
          subst (λ k. write_at (old ++ (none ∷ rest)) k b ≡ some (old ++ (b ∷ rest))) len
            (write_at-append old rest none b) in
        rw stored (
          rw
            (
              append_assoc old (b ∷ []) rest,
              append_assoc old (b ∷ []) (map (λ item'. some (copy_of item')) items),
            )
            at
            (copy_items-Rich items existing (suc i) (old ++ (b ∷ [])) g whole
              (omega (arith, length-append old (b ∷ [])))))
