-- ===== src/Messages/Get/Fetched.antt =====
-- The objects of a get response of src/messages/riak_get.c.
use mathlib.Core.Path.{subst}
use riak_c_client.Base.{
  ℕ, ◌≤◌, ◌≡◌, refl, sym, ap, ◌∙◌, Bool, true, false, Option, none, some, List, [], ◌∷◌, ◌++◌, map,
  length, append_assoc, append-nil, if◌then◌else◌, is_some, arith, ltb, mul64,
}
use riak_c_client.Error.{eriak_ok}
use riak_c_client.Memory.{Heap, Config, pure, ◌>>=◌}
use riak_c_client.Memory.Returns
use riak_c_client.Memory.Returns.{Returns, returns}
use riak_c_client.Memory.Rich.{
  IsRich, bind_known, config_allocate-Grants, config_clean_allocate-Grants,
}
use riak_c_client.Binary
use riak_c_client.Binary.{Binary, PbBinary, shallow, copy_from_pb, sizeof_binary, cells}
use riak_c_client.Message.{PbMessage}
use riak_c_client.Operation.{Operation, get_config}
use riak_c_client.ServerError.{payload}
use riak_c_client.Object.Types.{Flagged, RiakObject, PbContent, sizeof_object}
use riak_c_client.Object.Copy.{flagged_from_pb}
use riak_c_client.Object.Rows.{Rows, no_row, row}
use riak_c_client.Object.Content.{object_new_from_pb}
use riak_c_client.Wire.Read.{DecodeResult}
use riak_c_client.Messages.Listing.Items.{copy_of, binary-Rich}
use riak_c_client.Messages.Get.Reply.{
  PbGetResp, GetResponse, sizeof_get_response, named, get_objects, with_content, unchanged_of,
  get_response, get_response_decode,
}

-- The copy of a name, which owns its bytes.
abbrev pub copy_name : Option Binary → Option Binary
copy_name none = none
copy_name (some b) = some (copy_of (record { len = b.len; data_block = b.data_block }))

-- The bytes of a name lie in its block.
abbrev pub HasName : Option Binary → Type 0
HasName none = Unit {0}
HasName (some b) = b.len ≤ length (cells b.data_block)

-- The names that the operation keeps for the objects of its response.
pub record HasNames {D R : Type 0} (rop : Operation D R) : Type 0 where
  pub bucket : HasName rop.request.bucket
  pub bucket_type : HasName rop.request.bucket_type
  pub key : HasName rop.request.key

abbrev pub type_of : Option Binary → Flagged (Option Binary) → Flagged (Option Binary)
type_of none old = old
type_of (some t) old = record { has = true; content = copy_name (some t) }

-- An object with the copies of these names.
abbrev pub named_object : {D R : Type 0} → Operation D R → RiakObject → RiakObject
named_object rop object = record object {
  bucket = copy_name rop.request.bucket;
  bucket_type = type_of rop.request.bucket_type object.bucket_type;
  key = record { has = true; content = copy_name rop.request.key };
}

module _ {cfg : Config} (rich : IsRich cfg) where
  copy-Rich :
      (v : Option Binary) (h : Heap)
      → HasName v
      → Returns (λ r g. r ≡ copy_name v) (Binary.copy cfg v h)
  unfolding Binary.copy
  copy-Rich none h has = returns refl
  copy-Rich (some b) h has =
      binary-Rich rich (record { len = b.len; data_block = b.data_block }) h has

  type-Rich :
      (t : Option Binary) (old : Flagged (Option Binary)) (h : Heap)
      → HasName t
      → Returns
          (λ r g. r ≡ type_of t old)
          ((if is_some t
              then (do x ← Binary.copy cfg t; pure (record { has = true; content = x }))
              else pure old)
            h)
  type-Rich none old h has = returns refl
  type-Rich (some t) old h has = bind_known _ (copy-Rich (some t) h has) λ g. returns refl

  pub from_pb-Rich :
      (pb : PbBinary) (h : Heap)
      → Returns (λ r g. r ≡ some (shallow pb.len pb.data_block)) (copy_from_pb cfg pb h)
  unfolding copy_from_pb
  from_pb-Rich pb h = bind_known _ (config_allocate-Grants rich sizeof_binary h) λ g. returns refl

  -- A field read, which shares the bytes of the message.
  abbrev pub read_field : Flagged PbBinary → Flagged (Option Binary)
  read_field from =
      if from.has
      then record { has = true; content = some (shallow from.content.len from.content.data_block) }
      else record { has = false; content = none }

  pub field-Rich :
      (flag : Bool) (pb : PbBinary) (h : Heap)
      → Returns
          (λ r g. r ≡ some (read_field (record { has = flag; content = pb })))
          (flagged_from_pb cfg (record { has = flag; content = pb }) h)
  unfolding flagged_from_pb
  field-Rich true pb h = bind_known _ (from_pb-Rich pb h) λ g. returns refl
  field-Rich false pb h = returns refl

-- riak_object_new_from_pb reads this content into this object.
abbrev pub Reads : Config → PbContent → RiakObject → Type 0
Reads cfg pb object =
    (h : Heap) → Returns (λ r g. r ≡ (eriak_ok, some object)) (object_new_from_pb cfg pb h)

module _ {D : Type 0} (rop : Operation D GetResponse) (rich : IsRich (get_config rop)) where
  -- The response of these objects to a message.
  abbrev pub fetched : PbGetResp → List RiakObject → GetResponse
  fetched pb objects = record {
    vclock = read_field rich pb.vclock;
    unchanged = unchanged_of pb.unchanged;
    n_content = length pb.content;
    content = some (map (named_object rop) objects);
    internal = pb;
  }

  abbrev pub fetched_result : PbGetResp → List RiakObject → DecodeResult GetResponse
  fetched_result pb objects = record {
    result = eriak_ok;
    response = some (fetched pb objects);
    done = true;
  }

module _ {D : Type 0} (rop : Operation D GetResponse) (rich : IsRich (get_config rop))
    (names : HasNames rop) where
  named-Rich :
      (object : RiakObject) (h : Heap)
      → Returns (λ r g. r ≡ named_object rop object) (named rop object h)
  unfolding named
  named-Rich object h = bind_known _ (copy-Rich rich rop.request.bucket h names.bucket) λ g.
      bind_known _ (type-Rich rich rop.request.bucket_type object.bucket_type g names.bucket_type)
        λ k. bind_known _ (copy-Rich rich rop.request.key k names.key) λ l. returns refl

  get_objects-Rich :
      {pbs : List PbContent} {objects : List RiakObject}
      → Rows (Reads (get_config rop)) pbs objects
      → (built : List RiakObject) (h : Heap)
      → Returns
          (λ r g. r ≡ (eriak_ok, built ++ map (named_object rop) objects))
          (get_objects rop built pbs h)
  unfolding get_objects
  get_objects-Rich no_row built h = returns (ap (λ xs. (eriak_ok, xs)) (sym (append-nil built)))
  get_objects-Rich (row {y = y} {ys = ys} reads rows) built h = bind_known _ (reads h) λ g.
      bind_known _ (named-Rich y g) λ k.
        Returns.mono (get_objects-Rich rows (built ++ (named_object rop y ∷ [])) k) λ r l e.
          e
          ∙ ap (λ xs. (eriak_ok, xs))
              (append_assoc built (named_object rop y ∷ []) (map (named_object rop) ys))

  with_content-Rich :
      (c : PbContent) (cs : List PbContent) (vclock : Flagged PbBinary) (unchanged : Flagged Bool)
      (objects : List RiakObject) (h : Heap)
      → Rows (Reads (get_config rop)) (c ∷ cs) objects
      → let pb : PbGetResp = record { content = c ∷ cs; vclock = vclock; unchanged = unchanged } in
        Returns
          (λ r g. r ≡ fetched_result rop rich pb objects)
          (with_content rop
            (record {
              vclock = read_field rich vclock;
              unchanged = unchanged_of unchanged;
              n_content = 0;
              content = none;
              internal = pb;
            })
            pb
            h)
  unfolding with_content
  with_content-Rich c cs vclock unchanged objects h rows =
      let some_content : ltb 0 (length (c ∷ cs)) ≡ true = ground arith in
      rw (some_content, with_content)
        (bind_known _ (config_clean_allocate-Grants rich (mul64 sizeof_object (length (c ∷ cs))) h)
          λ g. bind_known _ (get_objects-Rich rows [] g) λ k. returns refl)

  response-Rich :
      (c : PbContent) (cs : List PbContent) (vclock : Flagged PbBinary) (unchanged : Flagged Bool)
      (objects : List RiakObject) (h : Heap)
      → Rows (Reads (get_config rop)) (c ∷ cs) objects
      → let pb : PbGetResp = record { content = c ∷ cs; vclock = vclock; unchanged = unchanged } in
        Returns (λ r g. r ≡ fetched_result rop rich pb objects) (get_response rop pb h)
  unfolding get_response
  response-Rich c cs vclock unchanged objects h rows =
      bind_known _ (config_clean_allocate-Grants rich sizeof_get_response h) λ g.
        bind_known _ (field-Rich rich vclock.has vclock.content g)
          λ k. with_content-Rich c cs vclock unchanged objects k rows

-- A get response with at least one content, to an operation that keeps its names, with an allocator
-- that always has memory: if the message unpacks and riak_object_new_from_pb reads each of its contents
-- into an object, then riak_get_response_decode returns success and ends the response, which holds
-- these objects in the order of the contents, each with a copy of the operation's bucket and key and,
-- where the operation has one, of its bucket type.
pub get_response_decode-fetched :
    {D : Type 0} (unpack : List ℕ → Option PbGetResp) (rop : Operation D GetResponse)
    (pbresp : PbMessage) {bytes : List ℕ} {pb : PbGetResp} {c : PbContent} {cs : List PbContent}
    {objects : List RiakObject} (done : Bool) (h : Heap) (rich : IsRich (get_config rop))
    → HasNames rop
    → payload pbresp ≡ some bytes
    → unpack bytes ≡ some pb
    → pb.content ≡ c ∷ cs
    → Rows (Reads (get_config rop)) (c ∷ cs) objects
    → Returns
        (λ r g. r ≡ fetched_result rop rich pb objects)
        (get_response_decode unpack rop (some pbresp) done h)
unfolding get_response_decode
get_response_decode-fetched unpack rop pbresp {pb} {c} {cs} {objects} done h rich names read
      unpacked contents rows =
    rw (read, unpacked, get_response_decode)
      (subst
        (λ xs.
          Returns (λ r g. r ≡ fetched_result rop rich (with_contents xs) objects)
            (get_response rop (with_contents xs) h))
        (sym contents) (response-Rich rop rich names c cs pb.vclock pb.unchanged objects h rows))
  where
    with_contents : List PbContent → PbGetResp
    with_contents xs = record { content = xs; vclock = pb.vclock; unchanged = pb.unchanged }
