-- ===== src/Messages/SetBucket.antt =====
-- src/messages/riak_set_bucketprops.c: the request that sets the properties of a bucket.
--
-- `pack` stands for what the generated packer writes. Like the function for the size, which comes first, it goes by the
-- descriptor at the start of each message, also of those that the message points to; `none` where it reads something
-- else in its place, which is undefined.
use riak_c_client.Base.{
  ℕ, zero, suc, Bool, true, false, Option, none, some, List, [], ◌∷◌, ◌&&◌, ◌≡◌,
}
use riak_c_client.Error.{RiakError, eriak_out_of_memory}
use riak_c_client.Memory.{Cmd, fault, value, ◌>>=◌}
use riak_c_client.Binary.{Binary, PbBinary}
use riak_c_client.Message.{PbMessage}
use riak_c_client.Operation.{Operation, get_config}
use riak_c_client.Object.Types.{Flagged}
use riak_c_client.Object.Copy.{bin_to_pb, entries}
use riak_c_client.BucketProps.Types.{PbModFun, PbCommitHook, BucketProps, PbBucketProps}
use riak_c_client.BucketProps.Copy.{bucketprops_to_pb_copy}
use riak_c_client.Wire.Read.{DecodeResult}
use riak_c_client.Messages.Request.{optional_to_pb, encode_packed}
use riak_c_client.Messages.Acknowledgement.{Acknowledged, acknowledge}
use riak_c_client.Messages.ResetBucket.{msg_rpbsetbucketreq}

-- `RpbSetBucketReq`
pub record PbSetBucketReq : Type 0 where
  pub bucket_type : Flagged PbBinary
  pub bucket : PbBinary
  pub props : PbBucketProps

-- The properties as a message, whatever error their copy ends with; NULL is read.
unfoldable pub props_message :
    {D R : Type 0} → Operation D R → Option BucketProps → Cmd (RiakError × PbBucketProps)
props_message rop none = λ h. fault
props_message rop (some props) = bucketprops_to_pb_copy (get_config rop) props

-- Whether a message behind a pointer has its descriptor; NULL is left out.
abbrev pub fun_packs : Option PbModFun → Bool
fun_packs none = true
fun_packs (some pb) = pb.base

abbrev pub hook_packs : PbCommitHook → Bool
hook_packs pb = pb.base && fun_packs pb.modfun

-- The packer goes through so many pointers to hooks.
abbrev pub hooks_pack : ℕ → List PbCommitHook → Bool
hooks_pack zero pbs = true
hooks_pack (suc n) [] = false
hooks_pack (suc n) (pb ∷ pbs) = hook_packs pb && hooks_pack n pbs

abbrev pub props_pack : PbBucketProps → Bool
props_pack pb =
    hooks_pack pb.precommit.n_hooks (entries pb.precommit.hooks)
    && (hooks_pack pb.postcommit.n_hooks (entries pb.postcommit.hooks)
        && (fun_packs pb.chash_keyfun && fun_packs pb.linkfun))

-- What protobuf-c asks of a message that is packed.
pub record NeedsBase (pack : PbSetBucketReq → Option (List ℕ)) : Type 0 where
  pub refuses : (req : PbSetBucketReq) → props_pack req.props ≡ false → pack req ≡ none

-- `riak_set_bucketprops_request_encode`
unfoldable pub set_bucketprops_request_encode :
    {D R : Type 0}
    → (PbSetBucketReq → Option (List ℕ))
    → D
    → Operation D R
    → Option Binary
    → Option Binary
    → Option BucketProps
    → Cmd (RiakError × Operation D R)
set_bucketprops_request_encode pack decoder rop bucket_type bucket props = do
  b ← bin_to_pb bucket
  (_, p) ← props_message rop props
  bytes ← value (pack (record { bucket_type = optional_to_pb bucket_type; bucket = b; props = p }))
  encode_packed eriak_out_of_memory false rop decoder msg_rpbsetbucketreq bytes

-- `riak_set_bucketprops_response_decode`
abbrev pub set_bucketprops_response_decode :
    {D : Type 0}
    → Operation D Acknowledged
    → Option PbMessage
    → Bool
    → Cmd (DecodeResult Acknowledged)
set_bucketprops_response_decode rop pbresp done = acknowledge rop
