-- ===== src/Messages/Index/Reply.antt =====
-- The response to an index query and the arrays that it holds for the user, in src/messages/riak_2i.c.
use riak_c_client.Base.{
  ℕ, zero, suc, Bool, true, false, Option, none, some, List, [], ◌∷◌, length, ltb, mul64, add32,
  if◌then◌else◌, next_int, get_elem?, replicate,
}
use riak_c_client.Error.{RiakError, eriak_ok, eriak_out_of_memory}
use riak_c_client.Memory.{
  Cmd, fault, pure, value, ◌>>=◌, ◌>>◌, Config, config_allocate, config_clean_allocate, free_if,
}
use riak_c_client.Binary.{Binary, PbBinary, copy_from_pb}
use riak_c_client.Utils.{array_realloc}
use riak_c_client.Object.Types.{Flagged, Pair, PbPair}
use riak_c_client.Object.Pairs.{pairs_copy_from_pb}
use riak_c_client.Object.Links.{unset}
use riak_c_client.Wire.Read.{DecodeResult}
use riak_c_client.Messages.Request.{unset_flag}
use riak_c_client.Messages.Listing.{cells_of}

-- `RpbIndexResp`; `n_keys` and `n_results` are the numbers of the entries.
pub record PbIndexResp : Type 0 where
  pub keys : List PbBinary
  pub results : List PbPair
  pub continuation : Flagged PbBinary
  pub done : Flagged Bool

-- `_riak_2i_response`
pub record IndexResponse : Type 0 where
  pub n_keys : ℕ
  pub keys : Option (List (Option Binary))
  pub n_results : ℕ
  pub results : Option (List (Option Pair))
  pub continuation : Flagged (Option Binary)
  pub done : Flagged Bool
  pub n_responses : ℕ
  pub internal : Option (List (Option PbIndexResp))

abbrev pub sizeof_index_response : ℕ
sizeof_index_response = 72

abbrev pub no_index_response : IndexResponse
no_index_response = record {
  n_keys = 0;
  keys = none;
  n_results = 0;
  results = none;
  continuation = unset;
  done = unset_flag;
  n_responses = 0;
  internal = none;
}

-- `*done`
abbrev pub index_done : PbIndexResp → Bool
index_done pb = if pb.done.has then pb.done.content else false

-- The vector of unpacked messages with room for one more; `none` without memory.
unfoldable pub index_room :
    Config → ℕ → Option (List (Option PbIndexResp)) → Cmd (Option (List (Option PbIndexResp)))
index_room cfg existing internal =
    if ltb 0 existing
    then array_realloc cfg none (cells_of internal) 8 existing (add32 existing 1)
    else (do
      got ← config_allocate (some cfg) 8
      elim got [ false ↦ pure none | true ↦ pure (some (none ∷ [])) ])

-- The sums over the unpacked messages, from the `i`-th on.
unfoldable pub sum_of : (PbIndexResp → ℕ) → ℕ → List (Option PbIndexResp) → ℕ → Option ℕ
sum_of size i [] acc = some acc
sum_of size i (none ∷ pbs) acc = none
sum_of size i (some pb ∷ pbs) acc = elim (next_int i) [
  | none ↦ none
  | some next ↦ sum_of size next pbs (add32 acc (size pb))
]

abbrev pub key_count : PbIndexResp → ℕ
key_count pb = length pb.keys

abbrev pub result_count : PbIndexResp → ℕ
result_count pb = length pb.results

-- The end of `if (++j >= response->_internal[chunk]->n_keys) { chunk++; j = 0; }`: whether `j` is still within
-- the message.
abbrev pub goes_on : ℕ → PbIndexResp → Bool
goes_on j pb = ltb (suc j) (key_count pb)

-- The loop over the keys, with so many left, the `i`-th next, at `j` of the first of these messages. `none`
-- without memory. `i` is an `int`, and `j` never more than `i`.
unfoldable pub copy_keys :
    Config → ℕ → ℕ → ℕ → List (Option PbIndexResp) → Cmd (Option (List (Option Binary)))
copy_keys cfg zero i j pbs = pure (some [])
copy_keys cfg (suc left) i j [] = λ h. fault
copy_keys cfg (suc left) i j (none ∷ pbs) = λ h. fault
copy_keys cfg (suc left) i j (some pb ∷ pbs) = do
  key ← value (get_elem? pb.keys j)
  k ← copy_from_pb cfg key
  elim k [
    | none ↦ pure none
    | some b ↦ do
      next ← value (next_int i)
      rest ← elim (goes_on j pb) [
        | true ↦ copy_keys cfg left next (suc j) (some pb ∷ pbs)
        | false ↦ copy_keys cfg left next 0 pbs
      ]
      elim rest [ none ↦ pure none | some bs ↦ pure (some (some b ∷ bs)) ]
  ]

-- The loop over the results. It ends with an error, here `none`, at the first copy that succeeds, and
-- leaves the message by the number of its keys.
unfoldable pub copy_results :
    Config → ℕ → ℕ → ℕ → List (Option PbIndexResp) → Cmd (Option (List (Option Pair)))
copy_results cfg zero i j pbs = pure (some [])
copy_results cfg (suc left) i j [] = λ h. fault
copy_results cfg (suc left) i j (none ∷ pbs) = λ h. fault
copy_results cfg (suc left) i j (some pb ∷ pbs) = do
  result ← value (get_elem? pb.results j)
  r ← pairs_copy_from_pb cfg result
  elim r [
    | some x ↦ pure none
    | none ↦ do
      next ← value (next_int i)
      rest ← elim (goes_on j pb) [
        | true ↦ copy_results cfg left next (suc j) (some pb ∷ pbs)
        | false ↦ copy_results cfg left next 0 pbs
      ]
      elim rest [ none ↦ pure none | some rs ↦ pure (some (none ∷ rs)) ]
  ]

-- What the pointer to the response is worth after an error: an old response stays where it is, in its
-- state so far; a new one is lost.
abbrev pub index_remains : Option IndexResponse → IndexResponse → Option IndexResponse
index_remains none response = none
index_remains (some _) response = some response

abbrev pub index_result : RiakError → Option IndexResponse → Bool → DecodeResult IndexResponse
index_result err response done = record { result = err; response = response; done = done }

-- The results of the response for the user; `keys` and their number are there.
unfoldable pub fill_results :
    Config → IndexResponse → List (Option PbIndexResp) → Cmd (RiakError × IndexResponse)
fill_results cfg response pbs = do
  results ← copy_results cfg response.n_results 0 0 pbs
  elim results [
    | none ↦ do free_if true; pure (eriak_out_of_memory, record response { results = none })
    | some rs ↦ pure (eriak_ok, record response { results = some rs })
  ]

-- The two loops.
unfoldable pub fill :
    Config → IndexResponse → List (Option PbIndexResp) → Cmd (RiakError × IndexResponse)
fill cfg response pbs = do
  keys ← copy_keys cfg response.n_keys 0 0 pbs
  elim keys [
    | none ↦ do free_if true; pure (eriak_out_of_memory, record response { keys = none })
    | some ks ↦ fill_results cfg (record response { keys = some ks }) pbs
  ]

-- The arrays for the user, made anew; what the pointers pointed to before is not given back.
unfoldable pub assemble_index :
    Config → IndexResponse → List (Option PbIndexResp) → Cmd (RiakError × IndexResponse)
assemble_index cfg response pbs = do
  total_keys ← value (sum_of key_count 0 pbs 0)
  total_results ← value (sum_of result_count 0 pbs 0)
  got ← config_clean_allocate (some cfg) (mul64 8 total_keys)
  elim got [
    | false ↦ pure (eriak_out_of_memory, record response { keys = none })
    | true ↦ do
      (let response' = record response {
        keys = some (replicate total_keys none);
        n_keys = total_keys;
      } in
          do
            got' ← config_clean_allocate (some cfg) (mul64 8 total_results)
            elim got' [
              | false ↦ pure (eriak_out_of_memory, record response' { results = none })
              | true ↦
                  fill cfg
                    (record response' {
                      results = some (replicate total_results none);
                      n_results = total_results;
                    })
                    pbs
            ])
  ]
