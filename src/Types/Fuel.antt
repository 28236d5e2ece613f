-- ===== src/Types/Fuel.antt =====
-- How long constructTypeVector (lib/LLVMExt/TypeEquality.cpp) runs: every struct's elements are
-- pushed once.
use llvm2cpg.Prelude.{
  ℕ, zero, suc, ◌+◌, ◌≤◌, ◌<◌, ◌≡◌, refl, subst, false, Option, none, some, List, [], ◌∷◌, ◌++◌,
  inl, inr, arith, ◌==◌, ==→eq, eq→==, Bool-cases,
}
use llvm2cpg.Types.{
  Ty, Tys, primitive, integer, pointer, array, vector, function, literal_struct, identified, nil,
  cons, to_list,
}
use llvm2cpg.Types.Naming.{lookup}
use llvm2cpg.Types.Equality.{Types}

abbrev mutual
  pub size : Ty → ℕ
  size (primitive p) = 1
  size (integer n) = 1
  size (pointer t) = suc (size t)
  size (array n t) = suc (size t)
  size (vector n b t) = suc (size t)
  size (function r ps b) = suc (size r + sizes ps)
  size (literal_struct a ts b) = suc (sizes ts)
  size (identified a) = 1

  pub sizes : Tys → ℕ
  sizes nil = 0
  sizes (cons t ts) = size t + sizes ts

abbrev pub size_all : List Ty → ℕ
size_all [] = 0
size_all (t ∷ ts) = size t + size_all ts

pub size_all-to_list : (ts : Tys) → size_all (to_list ts) ≡ sizes ts
unfolding to_list
size_all-to_list nil = refl
size_all-to_list (cons t ts) = omega (arith, size_all-to_list ts)

pub size_all-append : (ts us : List Ty) → size_all (ts ++ us) ≡ size_all ts + size_all us
size_all-append [] us = omega arith
size_all-append (t ∷ ts) us = omega (arith, size_all-append ts us)

abbrev pub body_size : Option (List Ty) → ℕ
body_size none = 0
body_size (some ts) = size_all ts

abbrev unless_found : Option ℕ → ℕ → ℕ
unless_found none m = m
unless_found (some n) m = 0

-- The elements of the structs below `n` that were not met yet.
abbrev pub unseen : Types → ℕ → List (ℕ × ℕ) → ℕ
unseen c zero met = 0
unseen c (suc k) met = unless_found (lookup k met) (body_size (c.structs k).body) + unseen c k met

lookup-other :
    (k a i : ℕ) (met : List (ℕ × ℕ)) → (a == k) ≡ false → lookup k ((a, i) ∷ met) ≡ lookup k met
unfolding lookup
lookup-other k a i met e = rw e refl

lookup-same : (a i : ℕ) (met : List (ℕ × ℕ)) → lookup a ((a, i) ∷ met) ≡ some i
unfolding lookup
lookup-same a i met = rw (eq→== a a refl) refl

module _ (c : Types) (a i : ℕ) (met : List (ℕ × ℕ)) where
  pub unless_mono :
      (k m : ℕ) → unless_found (lookup k ((a, i) ∷ met)) m ≤ unless_found (lookup k met) m
  unless_mono k m = elim (Bool-cases (a == k)) [
    | inl e ↦
        rw (subst (λ j. lookup j ((a, i) ∷ met) ≡ some i) (==→eq a k e) (lookup-same a i met))
          (omega arith)
    | inr e ↦ rw (lookup-other k a i met e) (omega arith)
  ]

  pub unseen_mono : (n : ℕ) → unseen c n ((a, i) ∷ met) ≤ unseen c n met
  unseen_mono zero = omega arith
  unseen_mono (suc k) = omega (arith, unseen_mono k, unless_mono k (body_size (c.structs k).body))

  -- The elements of a struct that is met for the first time are counted no more.
  pub unseen-met :
      (n : ℕ)
      → a < n
      → lookup a met ≡ none
      → unseen c n ((a, i) ∷ met) + body_size (c.structs a).body ≤ unseen c n met
  unseen-met zero lt e = absurd (omega arith)
  unseen-met (suc k) lt e = elim (Bool-cases (a == k)) [
    | inl h ↦
        subst
          (λ j.
            unless_found (lookup j ((a, i) ∷ met)) (body_size (c.structs j).body)
              + unseen c k ((a, i) ∷ met)
              + body_size (c.structs a).body
            ≤ unless_found (lookup j met) (body_size (c.structs j).body) + unseen c k met)
          (==→eq a k h) (rw (lookup-same a i met, e) (omega (arith, unseen_mono k)))
    | inr h ↦
        let lt' : a < k = ground (arith, h, lt) in
        omega (arith, unseen-met k lt' e, unless_mono k (body_size (c.structs k).body))
  ]
