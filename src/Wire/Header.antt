-- ===== src/Wire/Header.antt =====
-- `htonl` and `ntohl`, and the bytes of a `uint32_t` in the memory of a little-endian host.
use riak_c_client.Base.{
  ℕ, ◌+◌, ◌*◌, ◌/◌, ◌%◌, ◌^◌, ◌<◌, ◌≡◌, refl, some, List, [], ◌∷◌, arith, length, write_run,
}

-- The four bytes at the address of `x`.
unfoldable pub host_bytes : ℕ → List ℕ
host_bytes x = (x % 256) ∷ (x / 256 % 256) ∷ (x / 2 ^ 16 % 256) ∷ (x / 2 ^ 24 % 256) ∷ []

-- The value whose bytes these are; anything but four bytes is no `uint32_t`.
unfoldable pub host_u32 : List ℕ → ℕ
host_u32 (a ∷ b ∷ c ∷ d ∷ []) = a + 256 * b + 2 ^ 16 * c + 2 ^ 24 * d
host_u32 _ = 0

-- The value of four bytes in network order.
unfoldable pub net_u32 : List ℕ → ℕ
net_u32 (a ∷ b ∷ c ∷ d ∷ []) = 2 ^ 24 * a + 2 ^ 16 * b + 256 * c + d
net_u32 _ = 0

-- The bytes of `x` in network order.
unfoldable pub net_bytes : ℕ → List ℕ
net_bytes x = (x / 2 ^ 24 % 256) ∷ (x / 2 ^ 16 % 256) ∷ (x / 256 % 256) ∷ (x % 256) ∷ []

unfoldable pub ntohl : ℕ → ℕ
unfolding net_u32 host_bytes
ntohl x = net_u32 (host_bytes x)

unfoldable pub htonl : ℕ → ℕ
unfolding host_u32 net_bytes
htonl x = host_u32 (net_bytes x)

pub host_bytes-htonl : (x : ℕ) → host_bytes (htonl x) ≡ net_bytes x
unfolding htonl host_bytes
host_bytes-htonl x = ground arith

pub net_u32-net_bytes : (x : ℕ) → x < 2 ^ 32 → net_u32 (net_bytes x) ≡ x
unfolding net_u32 net_bytes
net_u32-net_bytes x h = omega arith

pub ntohl-host_u32-net_bytes : (x : ℕ) → x < 2 ^ 32 → ntohl (host_u32 (net_bytes x)) ≡ x
unfolding ntohl host_u32 net_bytes
ntohl-host_u32-net_bytes x h = omega arith

pub length-net_bytes : (x : ℕ) → length (net_bytes x) ≡ 4
unfolding net_bytes
length-net_bytes x = refl

-- Four bytes overwrite the whole word.
pub write_run-host_bytes :
    (m i x : ℕ) → i ≡ 0 → write_run (host_bytes m) i (net_bytes x) ≡ some (net_bytes x)
unfolding host_bytes net_bytes
write_run-host_bytes m i x e = rw e
