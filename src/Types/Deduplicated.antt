-- ===== src/Types/Deduplicated.antt =====
-- recordCanonicalStructNames (lib/ProtoWriter/CPGTypeEmitter.cpp) on a cluster as a whole: it ends,
-- and gives equal structs, and no others, the same counter.
use llvm2cpg.Prelude.{
  arith, ℕ, zero, suc, ◌+◌, ◌≤◌, ◌≡◌, refl, ap, ◌∙◌, Bool, Option, none, some, List, [], ◌∷◌, ◌++◌,
  length, ◌==◌,
}
use mathlib.Core.Option.{some-injective, none-ne-some}
use llvm2cpg.Prelude.Chain.{◌>>=◌}
use llvm2cpg.Types.{identified}
use llvm2cpg.Types.Naming.{lookup}
use llvm2cpg.Types.Equality.{Walk, construct_type_vector, start}
use llvm2cpg.Types.Fuel.{unseen}
use llvm2cpg.Types.Total.{IsTable, construct_type_vector-total}
use llvm2cpg.Types.Comparator.{
  Comparator, hash_vector, compute_type_hash, compute_found, compute_hash, types_equal,
}
use llvm2cpg.Types.Canonical.{
  Parts, partition, regroup, bump, Numbers, number_rest, number_cluster, record_cluster,
}
use llvm2cpg.Types.Cached.{Agrees, types_equal-Compares}
use llvm2cpg.Types.Grouping.{partition-Refines, record_cluster-Refines}
use llvm2cpg.Types.Parts.{parts-head, parts-length}
use llvm2cpg.Types.Classes.{Numbering, cluster-Numbering}

-- Structs below `n` only have elements, and the fuel is enough for them.
pub record HasFuel (n : ℕ) (s : Comparator) : Type 0 where
  pub is_table : IsTable s.table n
  pub enough : s.fuel ≡ 1 + unseen s.table n []

module _ (n : ℕ) where
  -- There is a result, and fuel is still enough after it.
  abbrev Goes {ℓ} : {A : Type ℓ} → Option (A × Comparator) → Type ℓ
  Goes {A = A} o = (r : A × Comparator) × (o ≡ some r) × HasFuel n r.1

  bind-Goes {ℓ κ} :
      {A : Type ℓ} {B : Type κ} (o : Option (A × Comparator))
      (g : A × Comparator → Option (B × Comparator))
      → Goes o
      → ((r : A × Comparator) → HasFuel n r.1 → Goes (g r))
      → Goes (o >>= g)
  bind-Goes none g h k = absurd (none-ne-some h.0 h.1)
  bind-Goes (some r) g h k = k r (rw (some-injective r h.0 h.1) h.2)

  hash-Goes :
      (o : Option Walk) (s : Comparator)
      → (w : Walk) × (o ≡ some w)
      → HasFuel n s
      → Goes (hash_vector o s)
  unfolding hash_vector
  hash-Goes none s h k = absurd (none-ne-some h.0 h.1)
  hash-Goes (some w) s h k = (_, refl, record { is_table = k.is_table; enough = k.enough })

  type_hash-Goes : (a : ℕ) (s : Comparator) → HasFuel n s → Goes (compute_type_hash a s)
  unfolding compute_type_hash
  type_hash-Goes a s k =
      let (w, e, balanced) =
        construct_type_vector-total s.table n (identified a) s.opaque_structs s.unnamed_structs
          k.is_table in
      let fuel = k.enough in
      hash-Goes _ s
        (
          w,
          ap
                (λ f.
                  construct_type_vector f s.table
                    (start (identified a) s.opaque_structs s.unnamed_structs))
                fuel
              ∙ e,
        )
        k

  found-Goes :
      (a : ℕ) (found : Option ℕ) (s : Comparator) → HasFuel n s → Goes (compute_found a found s)
  unfolding compute_found
  found-Goes a (some h) s k = ((h, s), refl, k)
  found-Goes a none s k =
      bind-Goes (compute_type_hash a s) _ (type_hash-Goes a s k)
        (λ r fuel. (_, refl, record { is_table = fuel.is_table; enough = fuel.enough }))

  compute_hash-Goes : (a : ℕ) (s : Comparator) → HasFuel n s → Goes (compute_hash a s)
  unfolding compute_hash
  compute_hash-Goes a s k = found-Goes a _ s k

  equal-Goes : (a b : ℕ) (s : Comparator) → HasFuel n s → Goes (types_equal a b s)
  unfolding types_equal
  equal-Goes a b s k = bind-Goes (compute_hash a s) _ (compute_hash-Goes a s k) (λ l fuel.
      bind-Goes (compute_hash b l.1) _ (compute_hash-Goes b l.1 fuel) (λ r fuel'. (_, refl, fuel')))

  partition-Goes :
      (x : ℕ) (l : List ℕ) (s : Comparator)
      → HasFuel n s
      → (r : Parts × Comparator) × (partition x l s ≡ some r) × HasFuel n r.1
  unfolding partition
  partition-Goes x [] s k = ((([], []), s), refl, k)
  partition-Goes x (y ∷ ys) s k = bind-Goes (types_equal x y s) _ (equal-Goes x y s k) (λ e fuel.
      bind-Goes (partition x ys e.1) _ (partition-Goes x ys e.1 fuel) (λ p fuel'. (_, refl, fuel')))

  number-Goes :
      (current counter : ℕ) (l : List ℕ) (s : Comparator)
      → HasFuel n s
      → Goes (number_rest current counter l s)
  unfolding number_rest
  number-Goes current counter [] s k = (([], s), refl, k)
  number-Goes current counter (y ∷ ys) s k =
      bind-Goes (types_equal current y s) _ (equal-Goes current y s k) (λ e fuel.
        let next = bump e.0 current y counter in
        bind-Goes (number_rest next.0 next.1 ys e.1) _ (number-Goes next.0 next.1 ys e.1 fuel)
          (λ r fuel'. (_, refl, fuel')))

  cluster-Goes : (l : List ℕ) (s : Comparator) → HasFuel n s → Goes (number_cluster l s)
  unfolding number_cluster
  cluster-Goes [] s k = (([], s), refl, k)
  cluster-Goes (x ∷ xs) s k =
      bind-Goes (number_rest x 0 xs s) _ (number-Goes x 0 xs s k) (λ r fuel. (_, refl, fuel))

-- The hash of a struct that the comparator has in its cache.
abbrev or_zero : Option ℕ → ℕ
or_zero none = 0
or_zero (some h) = h

abbrev pub cached : Comparator → ℕ → ℕ
cached s a = or_zero (lookup a s.hash_cache)

cached-Agrees : (s : Comparator) → Agrees (cached s) s
cached-Agrees s a h e = ap or_zero e

-- What is left over after a partition is shorter: its first struct equals itself.
partition-shorter :
    (x : ℕ) (xs : List ℕ) (s : Comparator) (r : Parts × Comparator)
    → partition x (x ∷ xs) s ≡ some r
    → length r.0.1 ≤ length xs
partition-shorter x xs s r e =
    let hash = cached r.1 in
    let same = (partition-Refines x (x ∷ xs) s r e).1 hash (cached-Agrees r.1) in
    rw (same, parts-head hash x xs) (omega (arith, parts-length hash x xs))

regroup-Goes :
    (n fuel : ℕ) (l : List ℕ) (s : Comparator)
    → length l ≤ fuel
    → HasFuel n s
    → Goes n (regroup fuel l s)
unfolding regroup
regroup-Goes n fuel [] s le k = (([], s), refl, k)
regroup-Goes n zero (x ∷ xs) s le k = absurd (omega arith)
regroup-Goes n (suc fuel) (x ∷ xs) s le k =
    let (p, e, k₁) = partition-Goes n x (x ∷ xs) s k in
    let (q, e', k₂) =
      regroup-Goes n fuel p.0.1 p.1 (omega (arith, le, partition-shorter x xs s p e)) k₁ in
    ((p.0.0 ++ q.0, q.1), rw (e, e') refl, k₂)

-- If only the structs below some address have elements and the fuel of the comparator is enough
-- for them, then the loops of recordCanonicalStructNames over one cluster end, every struct of
-- the cluster and no other gets a counter, and two of them have the same counter exactly when
-- their cached hashes are the same.
pub record_cluster-Numbering :
    (n : ℕ) (cluster : List ℕ) (s : Comparator)
    → HasFuel n s
    → (numbers : Numbers) × (s' : Comparator) × (record_cluster cluster s ≡ some (numbers, s'))
      × Numbering (cached s') 0 cluster numbers
      × HasFuel n s'
unfolding record_cluster
record_cluster-Numbering n cluster s k =
    let (q, e, k₁) = regroup-Goes n (length cluster) cluster s (omega arith) k in
    let (r, e', k₂) = cluster-Goes n q.0 q.1 k₁ in
    let whole : record_cluster cluster s ≡ some r = rw (e, e') refl in
    let same = (record_cluster-Refines cluster s r whole).1 (cached r.1) (cached-Agrees r.1) in
    (r.0, r.1, whole, rw same (cluster-Numbering (cached r.1) cluster), k₂)

-- If the fuel of the comparator is enough for the table of structs, typesEqual answers whether
-- the hashes that are then in the cache are the same, and leaves every hash that was in the
-- cache.
pub types_equal-cached :
    (n a b : ℕ) (s : Comparator)
    → HasFuel n s
    → (e : Bool) × (s' : Comparator) × (types_equal a b s ≡ some (e, s'))
      × (e ≡ (cached s' a == cached s' b))
      × ((c h : ℕ) → lookup c s.hash_cache ≡ some h → cached s' c ≡ h)
types_equal-cached n a b s k =
    let (r, e, k') = equal-Goes n a b s k in
    let (stays, compares) = types_equal-Compares a b s r e in
    (
      r.0,
      r.1,
      e,
      compares (cached r.1) (cached-Agrees r.1),
      λ c h found. cached-Agrees r.1 c h (stays c h found),
    )
