-- ===== src/Types/Cached.antt =====
-- The cache of hashes (lib/LLVMExt/TypeEquality.cpp): a hash never changes, so that the loops of
-- recordCanonicalStructNames (lib/ProtoWriter/CPGTypeEmitter.cpp) do what they would do with a
-- function of the struct in place of the comparator.
use llvm2cpg.Prelude.{
  ℕ, ◌≡◌, refl, sym, ap, ◌∙◌, Bool, Option, none, some, List, ◌∷◌, ◌==◌, ==→eq, eq→==, Bool-cases,
  inl, inr,
}
use mathlib.Core.Option.{some-injective, none-ne-some}
use llvm2cpg.Prelude.Chain.{bind-some}
use llvm2cpg.Types.Naming.{lookup}
use llvm2cpg.Types.Equality.{Walk}
use llvm2cpg.Types.Comparator.{
  Comparator, hash_vector, compute_type_hash, cache, compute_found, compute_hash, types_equal,
}

-- What is cached stays.
abbrev pub Stable : Comparator → Comparator → Type 0
Stable s s' = (a h : ℕ) → lookup a s.hash_cache ≡ some h → lookup a s'.hash_cache ≡ some h

-- The function gives the cached hashes.
abbrev pub Agrees : (ℕ → ℕ) → Comparator → Type 0
Agrees hash s = (a h : ℕ) → lookup a s.hash_cache ≡ some h → hash a ≡ h

pub Stable-Agrees :
    (hash : ℕ → ℕ) (s s' : Comparator) → Stable s s' → Agrees hash s' → Agrees hash s
Stable-Agrees hash s s' st ag a h e = ag a h (st a h e)

hash_vector-cache :
    (o : Option Walk) (s : Comparator) (r : ℕ × Comparator)
    → hash_vector o s ≡ some r
    → r.1.hash_cache ≡ s.hash_cache
unfolding hash_vector
hash_vector-cache none s r h = absurd (none-ne-some r h)
hash_vector-cache (some w) s r h =
    ap (λ (q : ℕ × Comparator). q.1.hash_cache) (sym (some-injective _ r h))

new-Stable :
    (a h : ℕ) (l : List (ℕ × ℕ))
    → lookup a l ≡ none
    → (b k : ℕ) → lookup b l ≡ some k
    → lookup b ((a, h) ∷ l) ≡ some k
unfolding lookup
new-Stable a h l e b k found = elim (Bool-cases (a == b)) [
  | inl same ↦
      let found' : lookup a l ≡ some k = rw (==→eq a b same) found in
      absurd (none-ne-some k (sym e ∙ found'))
  | inr differ ↦ rw differ found
]

lookup_new : (a h : ℕ) (l : List (ℕ × ℕ)) → lookup a ((a, h) ∷ l) ≡ some h
unfolding lookup
lookup_new a h l = rw (eq→== a a refl) refl

-- The hash that is returned is in the cache, where the older ones stay.
abbrev Caches : ℕ → Comparator → ℕ × Comparator → Type 0
Caches a s r = Stable s r.1 × (lookup a r.1.hash_cache ≡ some r.0)

found-Caches :
    (a : ℕ) (found : Option ℕ) (s : Comparator) (r : ℕ × Comparator)
    → lookup a s.hash_cache ≡ found
    → compute_found a found s ≡ some r
    → Caches a s r
unfolding compute_found compute_type_hash
found-Caches a (some h) s r e eq =
    let same = some-injective (h, s) r eq in rw (← same) (λ b k found. found, e)
found-Caches a none s r e eq =
    let (q, e₁, e₂) = bind-some (compute_type_hash a s) (λ p. some (cache a p)) r eq in
    let same = some-injective (cache a q) r e₂ in
    let kept = hash_vector-cache _ s q e₁ in
    rw (← same) (
      λ b k found.
          new-Stable a q.0 q.1.hash_cache (ap (lookup a) kept ∙ e) b k (ap (lookup b) kept ∙ found),
      lookup_new a q.0 q.1.hash_cache,
    )

compute_hash-Caches :
    (a : ℕ) (s : Comparator) (r : ℕ × Comparator) → compute_hash a s ≡ some r → Caches a s r
unfolding compute_hash
compute_hash-Caches a s r e = found-Caches a _ s r refl e

-- The answer is the comparison of the hashes of the two structs.
abbrev Compares : ℕ → ℕ → Comparator → Bool × Comparator → Type 0
Compares a b s r = Stable s r.1 × ((hash : ℕ → ℕ) → Agrees hash r.1 → r.0 ≡ (hash a == hash b))

pub types_equal-Compares :
    (a b : ℕ) (s : Comparator) (r : Bool × Comparator)
    → types_equal a b s ≡ some r
    → Compares a b s r
unfolding types_equal
types_equal-Compares a b s r e =
    let (l, e₁, k) = bind-some (compute_hash a s) _ r e in
    let (q, e₂, e₃) = bind-some (compute_hash b l.1) (λ p. some (l.0 == p.0, p.1)) r k in
    let same = some-injective (l.0 == q.0, q.1) r e₃ in
    let (st₁, at_a) = compute_hash-Caches a s l e₁ in
    let (st₂, at_b) = compute_hash-Caches b l.1 q e₂ in
    rw (← same) (
      λ c h found. st₂ c h (st₁ c h found),
      λ hash ag. rw (ag a l.0 (st₂ a l.0 at_a), ag b q.0 at_b) refl,
    )
