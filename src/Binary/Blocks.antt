-- ===== src/Binary/Blocks.antt =====
-- The life of a binary of src/riak_binary.c: what copies hold, and what freeing gives back.
use Prim.Native.Nat.{Ordering}
use riak_c_client.Base.{
  ℕ, ◌+◌, Bool, ◌≤◌, ◌≡◌, refl, ap, ◌∙◌, true, false, Option, none, some, List, arith, take, length,
  is_some, ◌&&◌, length-take, take-take,
}
use riak_c_client.Memory.{Heap, Config}
use riak_c_client.Memory.Returns
use riak_c_client.Memory.Returns.{
  Returns, returns, Moved, Allocated, one_if, free_if-Returns, grants, config_allocate-Granted,
}
use riak_c_client.Binary.{
  Binary, new, copy, copy_bytes, free, true_len, cells, compare_binary, sizeof_binary,
}
use riak_c_client.Binary.Print.{HasBytes}
use riak_c_client.Binary.Order.{bytes, compare_binary-eq}

-- The blocks that a binary owns.
abbrev pub owned : Option Binary → ℕ
owned none = 0
owned (some b) = one_if (b.managed && is_some b.data_block) + 1

-- The binaries live after are those before and what `r` owns.
abbrev pub Balanced : Heap → Option Binary → Heap → Type 0
Balanced h r g = g.mallocs + h.frees ≡ h.mallocs + g.frees + owned r

pub free-Returns : (b : Option Binary) (h : Heap) → Returns (λ _. Moved h 0 (owned b)) (free b h)
unfolding free
free-Returns none h = returns (omega arith)
free-Returns (some b) h =
    let owns = b.managed && is_some b.data_block in
    Returns.bind (free_if-Returns owns h)
      λ _ g m. Returns.mono (free_if-Returns true g) λ _ k n. omega arith

-- A copy that owns its block and has the bytes of the argument, or NULL.
abbrev pub IsCopy : ℕ → Option (List ℕ) → Option Binary → Type 0
IsCopy len block none = Unit {0}
IsCopy len block (some b) =
    (b.managed ≡ true)
    × (b.len ≡ true_len len block)
    × (b.data_block ≡ some (take (true_len len block) (cells block)))

pub copy_bytes-take :
    (len : ℕ) (block : Option (List ℕ))
    → true_len len block ≤ length (cells block)
    → copy_bytes block (true_len len block) ≡ some (take (true_len len block) (cells block))
unfolding copy_bytes
copy_bytes-take len none h = refl
copy_bytes-take len (some block) h = ground arith

-- Whether the allocator has the two blocks of a new binary of so many bytes.
abbrev pub has_room : Config → ℕ → Heap → Bool
has_room cfg len h = grants cfg h.calls sizeof_binary && grants cfg (h.calls + 1) len

pub new-IsCopy :
    (cfg : Config) (len : ℕ) (block : Option (List ℕ)) (h : Heap)
    → true_len len block ≤ length (cells block)
    → Returns
        (λ b g.
          IsCopy len block b × (is_some b ≡ has_room cfg (true_len len block) h) × Balanced h b g)
        (new cfg len block h)
unfolding new
new-IsCopy cfg len block h fits = Returns.bind (config_allocate-Granted cfg sizeof_binary h) (elim [
  | true ↦ λ g (m, first, counted).
      Returns.bind (config_allocate-Granted cfg (true_len len block) g) (elim [
        | true ↦ λ k (n, second, _).
            rw (copy_bytes-take len block fits, ← first, ← counted refl, ← second)
              (returns ((refl, refl, refl), refl, omega arith))
        | false ↦ λ k (n, second, _).
            Returns.bind (free_if-Returns true k)
              λ _ l o. rw (← first, ← counted refl, ← second) (returns (tt, refl, omega arith))
      ])
  | false ↦ λ g (m, first, _). rw (← first) (returns (tt, refl, omega arith))
])

-- NULL, or a binary that compares equal to `bin` and owns its bytes.
abbrev pub IsEqualCopy : Binary → Option Binary → Type 0
IsEqualCopy bin none = Unit {0}
IsEqualCopy bin (some b) = (b.managed ≡ true) × (compare_binary b bin ≡ some Ordering.eq)

true_len-eq : (n : ℕ) (block : Option (List ℕ)) → n ≤ length (cells block) → true_len n block ≡ n
true_len-eq n none h = omega arith
true_len-eq n (some block) h = refl

IsCopy-equal :
    (bin : Binary)
    → HasBytes bin
    → (b : Option Binary) → IsCopy bin.len bin.data_block b
    → IsEqualCopy bin b
IsCopy-equal bin has none is = tt
IsCopy-equal bin has (some b) (own, len, block) =
    (own, (compare_binary-eq {a = b} {b = bin} inside has).1 same)
  where
    e : true_len bin.len bin.data_block ≡ bin.len
    e = true_len-eq bin.len bin.data_block has.within

    held : cells b.data_block ≡ take bin.len (cells bin.data_block)
    held = ap cells block ∙ ap (λ n. take n (cells bin.data_block)) e

    inside : HasBytes b
    inside = record {
      within =
          rw held (omega (arith, len, e, has.within, length-take bin.len (cells bin.data_block)));
    }

    same : bytes b ≡ bytes bin
    same =
        ap (λ n. take n (cells b.data_block)) (len ∙ e)
        ∙ ap (take bin.len) held
        ∙ take-take bin.len bin.len (cells bin.data_block) (omega arith)

-- riak_binary_copy of a binary whose bytes lie in its block asks for a block for the copy and one for its
-- bytes. If the allocator has both, the copy is a binary that owns its bytes and compares equal to the
-- argument; if not, and only then, it is NULL. What it took is what riak_binary_free of the result gives back.
pub copy-IsEqualCopy :
    (cfg : Config) (bin : Binary) (h : Heap)
    → HasBytes bin
    → Returns
        (λ b g. IsEqualCopy bin b × (is_some b ≡ has_room cfg bin.len h) × Balanced h b g)
        (copy cfg (some bin) h)
unfolding copy
copy-IsEqualCopy cfg bin h has =
    let e = true_len-eq bin.len bin.data_block has.within in
    Returns.mono (new-IsCopy cfg bin.len bin.data_block h (omega arith))
      λ b g (is, room, even). (IsCopy-equal bin has b is, room ∙ ap (λ n. has_room cfg n h) e, even)
