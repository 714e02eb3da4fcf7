-- ===== src/Object/Rows.antt =====
-- The loops of src/riak_object.c over arrays, by what a round does with an entry.
use riak_c_client.Base.{true, false, Option, none, some, List, [], ◌∷◌, length, mul64}
use riak_c_client.Memory.{Heap, Cmd, pure, ◌>>=◌, Config}
use riak_c_client.Memory.Returns
use riak_c_client.Memory.Returns.{
  Returns, returns, Moved, Allocated, config_clean_allocate-Returns, config_allocate-Returns,
}
use riak_c_client.Object.Copy.{copy_array, each}

-- A property of every entry.
pub data Every {A : Type 0} (V : A → Type 0) : List A → Type 0 where
  no_entry : Every V []
  entry : {x : A} {xs : List A} → V x → Every V xs → Every V (x ∷ xs)

-- Two arrays of one length whose entries are related one by one.
pub data Rows {A B : Type 0} (S : A → B → Type 0) : List A → List B → Type 0 where
  no_row : Rows S [] []
  row :
      {x : A} {y : B} {xs : List A} {ys : List B} → S x y → Rows S xs ys → Rows S (x ∷ xs) (y ∷ ys)

-- NULL for want of memory, or a result with the property.
abbrev pub OrNull : {A : Type 0} → (A → Type 0) → Option A → Type 0
OrNull P none = Unit {0}
OrNull P (some a) = P a

-- A loop whose rounds take `x`, which stands for `o`, to what stands for `o` as well.
module _ {O A B : Type 0} {V : O → A → Type 0} {S : O → B → Type 0} {one : A → Cmd (Option B)}
    (one-Returns : (o : O) (x : A)
      → V o x
      → (h : Heap) → Returns (λ r g. OrNull (S o) r) (one x h)) where
  pub each-Returns :
      {os : List O} {xs : List A}
      → Rows V os xs
      → (h : Heap) → Returns (λ r g. OrNull (Rows S os) r) (each one (length xs) xs h)
  unfolding each
  each-Returns no_row h = returns no_row
  each-Returns {os = o ∷ os} {xs = x ∷ xs} (row v valid) h =
      Returns.bind (one-Returns o x v h) (first (each-Returns valid))
    where
      rest :
          (y : B)
          → S o y
          → (r : Option (List B)) (g : Heap) → OrNull (Rows S os) r
          → Returns
              (λ r g. OrNull (Rows S (o ∷ os)) r)
              ((elim r as (λ _. Cmd (Option (List B))) [
                | none ↦ pure none
                | some bs ↦ pure (some (y ∷ bs))
              ])
                g)
      rest y p none g q = returns tt
      rest y p (some ys) g q = returns (row p q)

      first :
          ((g : Heap) → Returns (λ r k. OrNull (Rows S os) r) (each one (length xs) xs g))
          → (r : Option B) (g : Heap) → OrNull (S o) r
          → Returns
              (λ r g. OrNull (Rows S (o ∷ os)) r)
              ((elim r as (λ _. Cmd (Option (List B))) [
                | none ↦ pure none
                | some b ↦ do
                  rest ← each one (length xs) xs
                  elim rest [ none ↦ pure none | some bs ↦ pure (some (b ∷ bs)) ]
              ])
                g)
      first later none g p = returns tt
      first later (some y) g p = Returns.bind (later g) (rest y p)

  pub copy_array-Returns :
      (cfg : Config) {os : List O} {xs : List A}
      → Rows V os xs
      → (h : Heap) → Returns (λ r g. OrNull (Rows S os) r) (copy_array cfg one (length xs) xs h)
  unfolding copy_array
  copy_array-Returns cfg {os = os} {xs = xs} valid h =
      Returns.bind (config_clean_allocate-Returns (some cfg) (mul64 8 (length xs)) h) λ got g p.
        elim got
          as (λ b.
            Returns (λ r g. OrNull (Rows S os) r)
              ((elim b as (λ _. Cmd (Option (List B))) [
                | false ↦ pure none
                | true ↦ each one (length xs) xs
              ])
                g)) [ true ↦ each-Returns valid g | false ↦ returns tt ]
