-- ===== src/BucketProps/Quorum.antt =====
-- The names that riak_bucketprops_quorum of src/riak_bucketprops.c gives to the quorum values.
use riak_c_client.Base.{ℕ, zero, suc, ◌-◌, ◌≤◌, ◌≡◌, ◌≢◌, ◌↔◌, ◌+◌, ltb, if◌then◌else◌, arith}

-- The entries of `riak_bucketprops_quorum_decoder`, and `outside` for what lies behind them.
pub data QuorumName : Type 0 where
  unknown one quorum all default outside : QuorumName

-- `riak_bucketprops_quorum_decoder`
unfoldable pub quorum_decoder : ℕ → QuorumName
quorum_decoder zero = unknown
quorum_decoder (suc zero) = one
quorum_decoder (suc (suc zero)) = quorum
quorum_decoder (suc (suc (suc zero))) = all
quorum_decoder (suc (suc (suc (suc zero)))) = default
quorum_decoder (suc (suc (suc (suc (suc n))))) = outside

abbrev pub riak_max_quorum : ℕ
riak_max_quorum = 4

abbrev pub uint32_max : ℕ
uint32_max = 4294967295

-- `riak_bucketprops_quorum` of a `riak_uint32_t`: a difference from 2^31 on is a negative `riak_int32_t`.
unfoldable pub bucketprops_quorum : ℕ → QuorumName
bucketprops_quorum q =
    let offset = uint32_max - q in
    quorum_decoder
      (if ltb offset 0x80000000 then (if ltb offset riak_max_quorum then offset else 0) else 0)

-- Of all 32-bit values exactly UINT32_MAX - 1, - 2 and - 3 are given the names one, quorum and all; no value is
-- given the name default, and no name behind the array is read.
pub bucketprops_quorum-names :
    (q : ℕ)
    → q ≤ uint32_max
    → ((bucketprops_quorum q ≡ one) ↔ (q + 1 ≡ uint32_max))
      × ((bucketprops_quorum q ≡ quorum) ↔ (q + 2 ≡ uint32_max))
      × ((bucketprops_quorum q ≡ all) ↔ (q + 3 ≡ uint32_max))
      × (bucketprops_quorum q ≢ default)
      × (bucketprops_quorum q ≢ outside)
unfolding bucketprops_quorum quorum_decoder
bucketprops_quorum-names q within = ground arith
