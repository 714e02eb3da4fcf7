-- ===== src/Object/Pointed.antt =====
-- The message that riak_pairs_copy_to_pb of src/riak_object.c makes of a pair points to the pair's data.
use mathlib.Core.Path.{subst}
use riak_c_client.Base.{
  ◌≡◌, refl, sym, ◌∙◌, Bool, true, false, Option, none, some, arith, Bool-cases, inl, inr,
}
use riak_c_client.Memory.{Heap, ok, Cmd, pure, ◌>>=◌, Config}
use riak_c_client.Memory.Returns
use riak_c_client.Memory.Returns.{
  Returns, returns, Moved, Allocated, config_clean_allocate-Returns, config_allocate-Returns,
}
use riak_c_client.Binary.{Binary, PbBinary, copy_to_pb}
use riak_c_client.Object.Types.{Flagged, Pair, PbPair, sizeof_pb_pair}
use riak_c_client.Object.Copy.{bin_to_pb, flagged_to_pb}
use riak_c_client.Object.Pairs.{unset_pb, pair_to_pb}
use riak_c_client.Object.Rows.{OrNull}

-- The pair has a key, and a value if its flag says so.
pub record IsComplete (pair : Pair) : Type 0 where
  pub has_key : (a : Binary) × (pair.key ≡ some a)
  pub has_content : pair.val.has ≡ true → (a : Binary) × (pair.val.content ≡ some a)

-- A `RpbPair` that points to the pair's data.
pub record IsPb (pair : Pair) (pb : PbPair) : Type 0 where
  pub pb_key : (a : Binary) × (pair.key ≡ some a) × (pb.key ≡ copy_to_pb a)
  pub pb_flag : pb.val.has ≡ pair.val.has
  pub pb_value :
      pair.val.has ≡ true
      → (a : Binary) × (pair.val.content ≡ some a) × (pb.val.content ≡ copy_to_pb a)

pub flagged_to_pb-eq :
    (f : Flagged (Option Binary)) (to : Flagged PbBinary) (h : Heap)
    → to.has ≡ false
    → (f.has ≡ true → (a : Binary) × (f.content ≡ some a))
    → (g : Flagged PbBinary) × (flagged_to_pb f to h ≡ ok g h)
      × (g.has ≡ f.has)
      × (f.has ≡ true → (a : Binary) × (f.content ≡ some a) × (g.content ≡ copy_to_pb a))
unfolding flagged_to_pb bin_to_pb
flagged_to_pb-eq f to h off full = elim (Bool-cases f.has) [
  | inl e ↦
      let (a, held) = full e in
      (record { has = true; content = copy_to_pb a }, rw (e, held), sym e, λ _. (a, held, refl))
  | inr e ↦ (to, rw e, off ∙ sym e, λ t. ground (arith, t, e))
]

-- The two fields of a round, one after the other.
abbrev field_pair_to_pb : Option Binary → Flagged (Option Binary) → Cmd (Option PbPair)
field_pair_to_pb key val = do
  k ← bin_to_pb key
  v ← flagged_to_pb val unset_pb
  pure (some (record { key = k; val = v }))

field_pair_to_pb-eq :
    (key : Option Binary) (val : Flagged (Option Binary)) (a : Binary) (f : Flagged PbBinary)
    (g : Heap)
    → key ≡ some a
    → flagged_to_pb val unset_pb g ≡ ok f g
    → field_pair_to_pb key val g ≡ ok (some (record { key = copy_to_pb a; val = f })) g
unfolding bin_to_pb
field_pair_to_pb-eq key val a f g held run = rw (held, run)

pub pair_to_pb-Returns :
    (cfg : Config) (pair : Pair)
    → IsComplete pair
    → (h : Heap) → Returns (λ r g. OrNull (IsPb pair) r) (pair_to_pb cfg pair h)
unfolding pair_to_pb bin_to_pb
pair_to_pb-Returns cfg pair v h =
    Returns.bind (config_clean_allocate-Returns (some cfg) sizeof_pb_pair h) filled
  where
    filled :
        (got : Bool) (g : Heap)
        → Allocated h got g
        → Returns
            (λ r k. OrNull (IsPb pair) r)
            ((elim got as (λ _. Cmd (Option PbPair)) [
              | false ↦ pure none
              | true ↦ do
                k ← bin_to_pb pair.key
                v ← flagged_to_pb pair.val unset_pb
                pure (some (record { key = k; val = v }))
            ])
              g)
    filled false g p = returns tt
    filled true g p =
        let (a, held) = v.has_key in
        let (f, run, flag, val) = flagged_to_pb-eq pair.val unset_pb g refl v.has_content in
        subst (Returns (λ r k. OrNull (IsPb pair) r))
          (sym (field_pair_to_pb-eq pair.key pair.val a f g held run))
          (returns (record { pb_key = (a, held, refl); pb_flag = flag; pb_value = val }))
