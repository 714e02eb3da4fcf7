-- ===== src/Messages/Carried.antt =====
-- What the requests of src/messages carry of the options that they are made with.
use riak_c_client.Base.{ℕ, List, Option, none, some, refl}
use riak_c_client.Error.{RiakError, eriak_ok}
use riak_c_client.Binary.{Binary, copy}
use riak_c_client.Binary.Print.{HasBytes}
use riak_c_client.Binary.Blocks.{copy-IsEqualCopy}
use riak_c_client.Operation.{Operation, get_config, set_bucket, set_bucket_type, set_index}
use riak_c_client.Sync.Packed.{request}
use riak_c_client.Memory.{Heap}
use riak_c_client.Memory.Returns
use riak_c_client.Memory.Returns.{Returns, returns}
use riak_c_client.Base.{◌≡◌, refl, true, false, Option, some, Bool-cases, inl, inr, arith}
use riak_c_client.Memory.{Heap}
use riak_c_client.Memory.Returns.{Returns, returns}
use riak_c_client.Binary.{Binary, PbBinary, copy_to_pb}
use riak_c_client.Object.Types.{Flagged}
use riak_c_client.Object.Pointed.{flagged_to_pb-eq}
use riak_c_client.Object.Copy.{scalar_copy, flagged_to_pb}

-- The field has the option's flag, and its content where the flag is set.
pub record Carries {A : Type 0} (from to : Flagged A) : Type 0 where
  pub flag : to.has ≡ from.has
  pub content : from.has ≡ true → to.content ≡ from.content

pub scalar_copy-Carries :
    {A : Type 0} (from to : Flagged A) → to.has ≡ false → Carries from (scalar_copy from to)
scalar_copy-Carries from to unset = elim (Bool-cases (from.has)) [
  | inl e ↦ rw e (record { flag = refl; content = λ on. refl })
  | inr e ↦ rw e (record { flag = unset; content = λ on. ground (arith, on) })
]

-- The same for a binary, of which the field points to the same bytes.
pub record CarriesBytes (from : Flagged (Option Binary)) (to : Flagged PbBinary) : Type 0 where
  pub flag : to.has ≡ from.has
  pub content :
      from.has ≡ true → (b : Binary) × (from.content ≡ some b) × (to.content ≡ copy_to_pb b)

-- An option with a flag has its binary.
abbrev pub HasContent : Flagged (Option Binary) → Type 0
HasContent from = from.has ≡ true → (b : Binary) × (from.content ≡ some b)

-- A field without its flag takes the option.
pub flagged_to_pb-Carries :
    (from : Flagged (Option Binary)) (to : Flagged PbBinary) (h : Heap)
    → to.has ≡ false
    → HasContent from
    → Returns (λ r g. CarriesBytes from r) (flagged_to_pb from to h)
flagged_to_pb-Carries from to h unset full =
    let (r, run, flag, content) = flagged_to_pb-eq from to h unset full in
    rw run (returns (record { flag = flag; content = content }))

-- The encoder has succeeded: it has packed a request of which `IsWanted` holds into the operation's message, with
-- this code, and has set the decoder.
pub record HasPacked {Req D R : Type 0} (IsWanted : Req → Type 0) (pack : Req → List ℕ) (id : ℕ)
    (decoder : D) (result : RiakError × Operation D R) : Type 0 where
  pub succeeds : result.0 ≡ eriak_ok
  pub req : Req
  pub carries : IsWanted req
  pub sends : result.1.pb_request ≡ some (request id (pack req))
  pub decodes : result.1.decoder ≡ some decoder

-- The operation keeps a copy of a binary whose bytes lie in its block, where it has memory, and its connection.
module _ {D R : Type 0} (rop : Operation D R) where
  pub set_bucket-Keeps :
      {b : Binary} (h : Heap)
      → HasBytes b
      → Returns (λ r g. r.connection ≡ rop.connection) (set_bucket rop (some b) h)
  unfolding set_bucket
  set_bucket-Keeps {b} h has =
      Returns.bind (copy-IsEqualCopy (get_config rop) b h has) λ c g is. returns refl

  pub set_index-Keeps :
      {b : Binary} (h : Heap)
      → HasBytes b
      → Returns (λ r g. r.connection ≡ rop.connection) (set_index rop (some b) h)
  unfolding set_index
  set_index-Keeps {b} h has =
      Returns.bind (copy-IsEqualCopy (get_config rop) b h has) λ c g is. returns refl

  pub set_bucket_type-Keeps :
      (b : Option Binary) (h : Heap)
      → ((a : Binary) → b ≡ some a → HasBytes a)
      → Returns (λ r g. r.connection ≡ rop.connection) (set_bucket_type rop b h)
  unfolding set_bucket_type copy
  set_bucket_type-Keeps none h has = returns refl
  set_bucket_type-Keeps (some b) h has =
      Returns.bind (copy-IsEqualCopy (get_config rop) b h (has b refl)) λ c g is. returns refl
