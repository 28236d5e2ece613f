-- ===== src/Types/Parts.antt =====
-- The two parts of a partition by hash, in recordCanonicalStructNames (lib/ProtoWriter/
-- CPGTypeEmitter.cpp).
use llvm2cpg.Prelude.{
  arith, ℕ, ◌+◌, ◌≡◌, ◌≢◌, ◌⊎◌, refl, sym, Bool, true, false, List, [], ◌∷◌, length, ◌==◌, ==→eq,
  eq→==, Bool-cases, inl, inr,
}
use llvm2cpg.Prelude.Each.{All, In}
use llvm2cpg.Types.Canonical.{Parts, put_part}
use llvm2cpg.Types.Grouping.{parts}

module _ (hash : ℕ → ℕ) where
  -- All have this hash,
  abbrev pub Same : ℕ → List ℕ → Type 0
  Same h l = All (λ a. hash a ≡ h) l

  abbrev pub Other : ℕ → List ℕ → Type 0
  Other h l = All (λ a. hash a ≢ h) l

  pub parts-Same : (x : ℕ) (l : List ℕ) → Same (hash x) (parts hash x l).0
  parts-Same x [] = tt
  parts-Same x (y ∷ ys) = elim (Bool-cases (hash x == hash y)) [
    | inl same ↦ rw same (sym (==→eq (hash x) (hash y) same), parts-Same x ys)
    | inr differ ↦ rw differ (parts-Same x ys)
  ]

  pub parts-Other : (x : ℕ) (l : List ℕ) → Other (hash x) (parts hash x l).1
  parts-Other x [] = tt
  parts-Other x (y ∷ ys) = elim (Bool-cases (hash x == hash y)) [
    | inl same ↦ rw same (parts-Other x ys)
    | inr differ ↦ rw differ (λ e. ground (arith, differ, e), parts-Other x ys)
  ]

  pub parts-length :
      (x : ℕ) (l : List ℕ) → length (parts hash x l).0 + length (parts hash x l).1 ≡ length l
  parts-length x [] = refl
  parts-length x (y ∷ ys) = elim (Bool-cases (hash x == hash y)) [
    | inl same ↦ rw same (omega (arith, parts-length x ys))
    | inr differ ↦ rw differ (omega (arith, parts-length x ys))
  ]

  -- The first struct of a group heads it.
  pub parts-head :
      (x : ℕ) (xs : List ℕ)
      → (parts hash x (x ∷ xs) ≡ (x ∷ (parts hash x xs).0, (parts hash x xs).1))
  parts-head x xs = rw (eq→== (hash x) (hash x) refl) refl

  pub put-In :
      (b : Bool) (y a : ℕ) (p : Parts)
      → (a ≡ y) ⊎ (In a p.0 ⊎ In a p.1)
      → In a (put_part b y p).0 ⊎ In a (put_part b y p).1
  put-In true y a (same, others) (inl e) = inl (inl e)
  put-In true y a (same, others) (inr (inl i)) = inl (inr i)
  put-In true y a (same, others) (inr (inr i)) = inr i
  put-In false y a (same, others) (inl e) = inr (inl e)
  put-In false y a (same, others) (inr (inl i)) = inl i
  put-In false y a (same, others) (inr (inr i)) = inr (inr i)

  pub parts-In : (x a : ℕ) (l : List ℕ) → In a l → In a (parts hash x l).0 ⊎ In a (parts hash x l).1
  parts-In x a [] i = absurd i
  parts-In x a (y ∷ ys) (inl e) = put-In (hash x == hash y) y a (parts hash x ys) (inl e)
  parts-In x a (y ∷ ys) (inr i) =
      put-In (hash x == hash y) y a (parts hash x ys) (inr (parts-In x a ys i))

  pub put-others : (b : Bool) (y a : ℕ) (p : Parts) → In a (put_part b y p).1 → (a ≡ y) ⊎ In a p.1
  put-others true y a (same, others) i = inr i
  put-others false y a (same, others) i = i

  -- What is left over was there.
  pub others-In : (x a : ℕ) (l : List ℕ) → In a (parts hash x l).1 → In a l
  others-In x a [] i = i
  others-In x a (y ∷ ys) i = elim (put-others (hash x == hash y) y a (parts hash x ys) i) [
    | inl e ↦ inl e
    | inr later ↦ inr (others-In x a ys later)
  ]

  pub put-same : (b : Bool) (y a : ℕ) (p : Parts) → In a (put_part b y p).0 → (a ≡ y) ⊎ In a p.0
  put-same true y a (same, others) i = i
  put-same false y a (same, others) i = inr i

  pub same-In : (x a : ℕ) (l : List ℕ) → In a (parts hash x l).0 → In a l
  same-In x a [] i = i
  same-In x a (y ∷ ys) i = elim (put-same (hash x == hash y) y a (parts hash x ys) i) [
    | inl e ↦ inl e
    | inr later ↦ inr (same-In x a ys later)
  ]
