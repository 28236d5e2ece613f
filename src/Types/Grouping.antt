-- ===== src/Types/Grouping.antt =====
-- The loops of recordCanonicalStructNames (lib/ProtoWriter/CPGTypeEmitter.cpp) with the cached
-- hashes in place of the comparator, and that they end.
use llvm2cpg.Prelude.{ℕ, zero, suc, ◌≡◌, refl, ap, ◌∙◌, some, List, [], ◌∷◌, ◌++◌, length, ◌==◌}
use mathlib.Core.Option.{some-injective, none-ne-some}
use llvm2cpg.Prelude.Chain.{bind-some}
use llvm2cpg.Types.Comparator.{Comparator, types_equal}
use llvm2cpg.Types.Canonical.{
  Parts, put_part, partition, regroup, bump, Numbers, number_rest, number_cluster, record_cluster,
}
use llvm2cpg.Types.Cached.{Stable, Agrees, Stable-Agrees, types_equal-Compares}

module _ (hash : ℕ → ℕ) where
  abbrev pub parts : ℕ → List ℕ → Parts
  parts x [] = ([], [])
  parts x (y ∷ ys) = put_part (hash x == hash y) y (parts x ys)

  abbrev pub groups : ℕ → List ℕ → List ℕ
  groups fuel [] = []
  groups zero (x ∷ xs) = []
  groups (suc fuel) (x ∷ xs) = let p = parts x (x ∷ xs) in let rest = groups fuel p.1 in p.0 ++ rest

  abbrev pub numbers : ℕ → ℕ → List ℕ → Numbers
  numbers current counter [] = []
  numbers current counter (y ∷ ys) =
      let next = bump (hash current == hash y) current y counter in
      let rest = numbers next.0 next.1 ys in (y, next.1) ∷ rest

  abbrev pub cluster_numbers : List ℕ → Numbers
  cluster_numbers [] = []
  cluster_numbers (x ∷ xs) = (x, 0) ∷ numbers x 0 xs

-- The result is that of a function of the hashes, and no hash changes.
abbrev pub Refines {ℓ} : {A : Type ℓ} → ((ℕ → ℕ) → A) → Comparator → A × Comparator → Type ℓ
Refines pure s r = Stable s r.1 × ((hash : ℕ → ℕ) → Agrees hash r.1 → r.0 ≡ pure hash)

pub partition-Refines :
    (x : ℕ) (l : List ℕ) (s : Comparator) (r : Parts × Comparator)
    → partition x l s ≡ some r
    → Refines (λ hash. parts hash x l) s r
unfolding partition
partition-Refines x [] s r e =
    rw (← some-injective (([], []), s) r e) (λ a h found. found, λ hash ag. refl)
partition-Refines x (y ∷ ys) s r e =
    let (b, e₁, k) = bind-some (types_equal x y s) _ r e in
    let (p, e₂, e₃) = bind-some (partition x ys b.1) (λ p. some (put_part b.0 y p.0, p.1)) r k in
    let (st₁, at₁) = types_equal-Compares x y s b e₁ in
    let (st₂, at₂) = partition-Refines x ys b.1 p e₂ in
    rw (← some-injective (put_part b.0 y p.0, p.1) r e₃) (
      λ a h found. st₂ a h (st₁ a h found),
      λ hash ag. rw (at₁ hash (Stable-Agrees hash b.1 p.1 st₂ ag), at₂ hash ag) refl,
    )

regroup-Refines :
    (fuel : ℕ) (l : List ℕ) (s : Comparator) (r : List ℕ × Comparator)
    → regroup fuel l s ≡ some r
    → Refines (λ hash. groups hash fuel l) s r
unfolding regroup
regroup-Refines fuel [] s r e =
    rw (← some-injective ([], s) r e) (λ a h found. found, λ hash ag. refl)
regroup-Refines zero (x ∷ xs) s r e = absurd (none-ne-some r e)
regroup-Refines (suc fuel) (x ∷ xs) s r e =
    let (p, e₁, k) = bind-some (partition x (x ∷ xs) s) _ r e in
    let (q, e₂, e₃) = bind-some (regroup fuel p.0.1 p.1) (λ q. some (p.0.0 ++ q.0, q.1)) r k in
    let (st₁, at₁) = partition-Refines x (x ∷ xs) s p e₁ in
    let (st₂, at₂) = regroup-Refines fuel p.0.1 p.1 q e₂ in
    rw (← some-injective (p.0.0 ++ q.0, q.1) r e₃) (
      λ a h found. st₂ a h (st₁ a h found),
      λ hash ag.
          ap (λ rest. p.0.0 ++ rest) (at₂ hash ag)
          ∙ ap (λ (parted : Parts). parted.0 ++ groups hash fuel parted.1)
              (at₁ hash (Stable-Agrees hash p.1 q.1 st₂ ag)),
    )

number-Refines :
    (current counter : ℕ) (l : List ℕ) (s : Comparator) (r : Numbers × Comparator)
    → number_rest current counter l s ≡ some r
    → Refines (λ hash. numbers hash current counter l) s r
unfolding number_rest
number-Refines current counter [] s r e =
    rw (← some-injective ([], s) r e) (λ a h found. found, λ hash ag. refl)
number-Refines current counter (y ∷ ys) s r e =
    let (b, e₁, k) = bind-some (types_equal current y s) _ r e in
    let next = bump b.0 current y counter in
    let (q, e₂, e₃) =
      bind-some (number_rest next.0 next.1 ys b.1) (λ q. some ((y, next.1) ∷ q.0, q.1)) r k in
    let (st₁, at₁) = types_equal-Compares current y s b e₁ in
    let (st₂, at₂) = number-Refines next.0 next.1 ys b.1 q e₂ in
    rw (← some-injective ((y, next.1) ∷ q.0, q.1) r e₃) (
      λ a h found. st₂ a h (st₁ a h found),
      λ hash ag.
          ap (λ rest. (y, next.1) ∷ rest) (at₂ hash ag)
          ∙ ap
              (λ same.
                let after = bump same current y counter in
                (y, after.1) ∷ numbers hash after.0 after.1 ys)
              (at₁ hash (Stable-Agrees hash b.1 q.1 st₂ ag)),
    )

cluster-Refines :
    (l : List ℕ) (s : Comparator) (r : Numbers × Comparator)
    → number_cluster l s ≡ some r
    → Refines (λ hash. cluster_numbers hash l) s r
unfolding number_cluster
cluster-Refines [] s r e = rw (← some-injective ([], s) r e) (λ a h found. found, λ hash ag. refl)
cluster-Refines (x ∷ xs) s r e =
    let (q, e₁, e₂) = bind-some (number_rest x 0 xs s) (λ q. some ((x, 0) ∷ q.0, q.1)) r e in
    let (st, at) = number-Refines x 0 xs s q e₁ in
    rw (← some-injective ((x, 0) ∷ q.0, q.1) r e₂)
      (st, λ hash ag. ap (λ rest. (x, 0) ∷ rest) (at hash ag))

-- The counters of a cluster are those that the hashes give.
pub record_cluster-Refines :
    (cluster : List ℕ) (s : Comparator) (r : Numbers × Comparator)
    → record_cluster cluster s ≡ some r
    → Refines (λ hash. cluster_numbers hash (groups hash (length cluster) cluster)) s r
unfolding record_cluster
record_cluster-Refines cluster s r e =
    let (q, e₁, e₂) = bind-some (regroup (length cluster) cluster s) _ r e in
    let (st₁, at₁) = regroup-Refines (length cluster) cluster s q e₁ in
    let (st₂, at₂) = cluster-Refines q.0 q.1 r e₂ in
    (
      λ a h found. st₂ a h (st₁ a h found),
      λ hash ag.
          at₂ hash ag ∙ ap (cluster_numbers hash) (at₁ hash (Stable-Agrees hash q.1 r.1 st₂ ag)),
    )
