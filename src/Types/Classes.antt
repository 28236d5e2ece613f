-- ===== src/Types/Classes.antt =====
-- The counters that recordCanonicalStructNames (lib/ProtoWriter/CPGTypeEmitter.cpp) gives tell
-- unequal structs of a cluster apart, and only those.
use llvm2cpg.Prelude.{
  arith, ℕ, zero, suc, ◌≤◌, ◌<◌, ◌≡◌, ◌≢◌, refl, sym, ap, ◌∙◌, false, List, [], ◌∷◌, ◌++◌, length,
  ◌==◌, eq→==, ne→==, inl, inr, map,
}
use llvm2cpg.Prelude.Each.{All, All-each, In, All-In, In-append, In-left, In-right}
use llvm2cpg.Types.Canonical.{Numbers}
use llvm2cpg.Types.Grouping.{parts, groups, numbers, cluster_numbers}
use llvm2cpg.Types.Parts.{
  Same, Other, parts-Same, parts-Other, parts-length, parts-head, parts-In, others-In, same-In,
}

module _ (hash : ℕ → ℕ) where
  -- The counter stays within a group.
  numbers-group :
      (current counter : ℕ) (same rest : List ℕ)
      → Same hash (hash current) same
      → numbers hash current counter (same ++ rest)
        ≡ map (λ a. (a, counter)) same ++ numbers hash current counter rest
  numbers-group current counter [] rest h = refl
  numbers-group current counter (y ∷ same) rest h =
      rw (eq→== (hash current) (hash y) (sym h.0))
        (ap (λ l. (y, counter) ∷ l) (numbers-group current counter same rest h.1))

  -- Equal counters for equal hashes, and only for them.
  abbrev pub Classified : Numbers → Type 0
  Classified l =
      (p q : ℕ × ℕ)
      → In p l
      → In q l
      → (p.1 ≡ q.1 → hash p.0 ≡ hash q.0) × (hash p.0 ≡ hash q.0 → p.1 ≡ q.1)

  -- The counters of a list are at least `counter`, and of its structs; each of them has one.
  pub record Numbering (counter : ℕ) (l : List ℕ) (n : Numbers) : Type 0 where
    pub above : All (λ (p : ℕ × ℕ). counter ≤ p.1) n
    pub from : All (λ (p : ℕ × ℕ). In p.0 l) n
    pub complete : (a : ℕ) → In a l → (i : ℕ) × In {A = ℕ × ℕ} (a, i) n
    pub classified : Classified n

  block-In :
      (k : ℕ) (block : List ℕ) (p : ℕ × ℕ)
      → In p (map (λ a. (a, k)) block)
      → In p.0 block × (p.1 ≡ k)
  block-In k [] p i = absurd i
  block-In k (y ∷ ys) p (inl e) = (inl (ap (λ (q : ℕ × ℕ). q.0) e), ap (λ (q : ℕ × ℕ). q.1) e)
  block-In k (y ∷ ys) p (inr i) = let (in_ys, e) = block-In k ys p i in (inr in_ys, e)

  in_block :
      (k a : ℕ) (block : List ℕ) → In a block → In {A = ℕ × ℕ} (a, k) (map (λ b. (b, k)) block)
  in_block k a (y ∷ ys) (inl e) = inl (ap (λ b. (b, k)) e)
  in_block k a (y ∷ ys) (inr i) = inr (in_block k a ys i)
  in_block k a [] i = absurd i

  -- A block with one hash and one counter, before others with other hashes and later counters.
  block-Classified :
      (h k : ℕ) (block : List ℕ) (n : Numbers)
      → Same hash h block
      → All (λ (p : ℕ × ℕ). (k < p.1) × (hash p.0 ≢ h)) n
      → Classified n
      → Classified (map (λ a. (a, k)) block ++ n)
  block-Classified h k block n same others classified p q in_p in_q =
      elim (In-append p (map (λ a. (a, k)) block) n in_p) [
        | inl left_p ↦
            let (at_p, num_p) = block-In k block p left_p in
            let hash_p = All-In (λ a. hash a ≡ h) p.0 block same at_p in
            elim (In-append q (map (λ a. (a, k)) block) n in_q) [
              | inl left_q ↦
                  let (at_q, num_q) = block-In k block q left_q in
                  let hash_q = All-In (λ a. hash a ≡ h) q.0 block same at_q in
                  (λ e. hash_p ∙ sym hash_q, λ e. num_p ∙ sym num_q)
              | inr right_q ↦
                  let (lt, ne) =
                    All-In (λ (r : ℕ × ℕ). (k < r.1) × (hash r.0 ≢ h)) q n others right_q in
                  (λ e. absurd (omega (arith, lt, e, num_p)), λ e. absurd (ne (sym e ∙ hash_p)))
            ]
        | inr right_p ↦
            let (lt, ne) = All-In (λ (r : ℕ × ℕ). (k < r.1) × (hash r.0 ≢ h)) p n others right_p in
            elim (In-append q (map (λ a. (a, k)) block) n in_q) [
              | inl left_q ↦
                  let (at_q, num_q) = block-In k block q left_q in
                  let hash_q = All-In (λ a. hash a ≡ h) q.0 block same at_q in
                  (λ e. absurd (omega (arith, lt, e, num_q)), λ e. absurd (ne (e ∙ hash_q)))
              | inr right_q ↦ classified p q right_p right_q
            ]
      ]

  All-append : (P : ℕ × ℕ → Type 0) (xs ys : Numbers) → All P xs → All P ys → All P (xs ++ ys)
  All-append P [] ys h k = k
  All-append P (x ∷ xs) ys h k = (h.0, All-append P xs ys h.1 k)

  All-block :
      (P : ℕ × ℕ → Type 0) (k : ℕ) (block : List ℕ)
      → ((a : ℕ) → In a block → P (a, k))
      → All P (map (λ a. (a, k)) block)
  All-block P k [] h = tt
  All-block P k (y ∷ ys) h = (h y (inl refl), All-block P k ys (λ a i. h a (inr i)))

  -- What holds of the list holds of its elements.
  All-from : (P : ℕ → Type 0) (l : List ℕ) → ((a : ℕ) → In a l → P a) → All P l
  All-from P [] h = tt
  All-from P (x ∷ xs) h = (h x (inl refl), All-from P xs (λ a i. h a (inr i)))

  -- A group with its counter, before the numbering of what is left over.
  group-Numbering :
      (k x : ℕ) (xs : List ℕ) (n : Numbers)
      → Numbering (suc k) (parts hash x xs).1 n
      → Numbering k (x ∷ xs) (map (λ a. (a, k)) (x ∷ (parts hash x xs).0) ++ n)
  group-Numbering k x xs n h = record {
    above =
        All-append _ (map (λ a. (a, k)) block) n (All-block _ k block (λ a i. omega arith))
          (All-each (λ p lt. omega arith) n h.above);
    from =
        All-append _ (map (λ a. (a, k)) block) n (All-block _ k block block_from)
          (All-each (λ p i. inr (others-In hash x p.0 xs i)) n h.from);
    complete = complete;
    classified =
        block-Classified (hash x) k block n (refl, parts-Same hash x xs) (others n h.above h.from)
          h.classified;
  }
    where
      block : List ℕ
      block = x ∷ (parts hash x xs).0

      block_from : (a : ℕ) → In a block → In a (x ∷ xs)
      block_from a (inl e) = inl e
      block_from a (inr i) = inr (same-In hash x a xs i)

      complete :
          (a : ℕ) → In a (x ∷ xs) → (i : ℕ) × In {A = ℕ × ℕ} (a, i) (map (λ b. (b, k)) block ++ n)
      complete a (inl e) =
          (k, In-left {A = ℕ × ℕ} (a, k) (map (λ b. (b, k)) block) n (in_block k a block (inl e)))
      complete a (inr i) = elim (parts-In hash x a xs i) [
        | inl same ↦ (
          k,
          In-left {A = ℕ × ℕ} (a, k) (map (λ b. (b, k)) block) n (in_block k a block (inr same)),
        )
        | inr other ↦
            let (j, at_j) = h.complete a other in
            (j, In-right {A = ℕ × ℕ} (a, j) (map (λ b. (b, k)) block) n at_j)
      ]

      others :
          (n : Numbers)
          → All (λ (p : ℕ × ℕ). suc k ≤ p.1) n
          → All (λ (p : ℕ × ℕ). In p.0 (parts hash x xs).1) n
          → All (λ (p : ℕ × ℕ). (k < p.1) × (hash p.0 ≢ hash x)) n
      others [] lt i = tt
      others (p ∷ n) lt i = (
        (omega (arith, lt.0), All-In (λ a. hash a ≢ hash x) p.0 _ (parts-Other hash x xs) i.0),
        others n lt.1 i.1,
      )

  groups-Numbering :
      (fuel current counter : ℕ) (l : List ℕ)
      → length l ≤ fuel
      → Other hash (hash current) l
      → Numbering (suc counter) l (numbers hash current counter (groups hash fuel l))
  groups-Numbering fuel current counter [] le h = record {
    above = tt;
    from = tt;
    complete = λ a i. absurd i;
    classified = λ p q i j. absurd i;
  }
  groups-Numbering zero current counter (x ∷ xs) le h = absurd (omega arith)
  groups-Numbering (suc fuel) current counter (x ∷ xs) le h =
      let others = (parts hash x xs).1 in
      let rest = groups hash fuel others in
      let later =
        groups-Numbering fuel x (suc counter) others (omega (arith, le, parts-length hash x xs))
          (parts-Other hash x xs) in
      let apart : (hash current == hash x) ≡ false = ne→== _ _ (λ e. h.0 (sym e)) in
      rw
        (
          parts-head hash x xs,
          apart,
          numbers-group x (suc counter) (parts hash x xs).0 rest (parts-Same hash x xs),
        )
        (group-Numbering (suc counter) x xs _ later)

  pub cluster-Numbering :
      (l : List ℕ) → Numbering 0 l (cluster_numbers hash (groups hash (length l) l))
  cluster-Numbering [] = record {
    above = tt;
    from = tt;
    complete = λ a i. absurd i;
    classified = λ p q i j. absurd i;
  }
  cluster-Numbering (x ∷ xs) =
      let others = (parts hash x xs).1 in
      let rest = groups hash (length xs) others in
      let later =
        groups-Numbering (length xs) x 0 others (omega (arith, parts-length hash x xs))
          (parts-Other hash x xs) in
      rw (parts-head hash x xs, numbers-group x 0 (parts hash x xs).0 rest (parts-Same hash x xs))
        (group-Numbering 0 x xs _ later)
