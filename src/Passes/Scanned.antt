-- ===== src/Passes/Scanned.antt =====
-- The loop over a block in LoadInlinePass::run of lib/Transforms/CustomPasses.cpp: what the
-- numbers and the spoilers that it leaves mean.
use llvm2cpg.Prelude.{
  arith, ℕ, zero, suc, ◌+◌, ◌<◌, ◌≡◌, inl, inr, refl, sym, ap, ◌∙◌, Bool, true, false, some, List,
  [], ◌∷◌, ◌++◌, length, get_elem?, Bool-cases, ◌==◌, ==→eq, eq→==,
}
use mathlib.Core.Option.{some-injective, none-ne-some}
use llvm2cpg.Prelude.Keys.{Distinct}
use llvm2cpg.Types.Naming.{lookup}
use llvm2cpg.Passes.Function.{Function, Marks, All, All-each, get_unique, spoils, is_load}
use llvm2cpg.Passes.Uses.{bind-some, is_used_outside_bb}
use llvm2cpg.Passes.Inline.{
  Scan, admit, admit_load, spoil, spoilt_by, kept_by, number, next, scan, spoilers, at, cleared,
}

get-below : (xs : List ℕ) (n w : ℕ) → get_elem? xs n ≡ some w → n < length xs
get-below [] n w e = absurd (none-ne-some w e)
get-below (x ∷ xs) zero w e = omega arith
get-below (x ∷ xs) (suc n) w e = omega (arith, get-below xs n w e)

module _ (fuel : ℕ) (f : Function) (m : Marks) (block : List ℕ) (distinct : Distinct block) where
  -- A load of the block that is used in it only, and that nothing between it and `n` spoils.
  pub record Clear (n l : ℕ) : Type 0 where
    pub place : ℕ
    pub stands : get_elem? block place ≡ some l
    pub loads : is_load f l ≡ true
    pub inside : is_used_outside_bb fuel f m l ≡ some false
    pub clear : (k w : ℕ) → place < k → k < n → get_elem? block k ≡ some w → spoils f w l ≡ false

  Clear-next :
      (n i l : ℕ) → get_elem? block n ≡ some i → spoils f i l ≡ false → Clear n l → Clear (suc n) l
  Clear-next n i l e h c = record {
    place = c.place;
    stands = c.stands;
    loads = c.loads;
    inside = c.inside;
    clear = λ k w lo hi at_k. elim (Bool-cases (k == n)) [
      | inl same ↦
          let at_n : get_elem? block n ≡ some w = rw (← ==→eq k n same) at_k in
          rw (← some-injective i w (sym e ∙ at_n)) h
      | inr differ ↦ c.clear k w lo (ground (arith, differ)) at_k
    ];
  }

  kept-Clear :
      (n i : ℕ) (ls : List ℕ)
      → get_elem? block n ≡ some i
      → All (Clear n) ls
      → All (Clear (suc n)) (kept_by f i ls)
  unfolding kept_by
  kept-Clear n i [] e h = tt
  kept-Clear n i (l ∷ ls) e h = elim (Bool-cases (f.is_mod_set i l)) [
    | inl set ↦ rw set (kept-Clear n i ls e h.1)
    | inr free ↦ rw free (Clear-next n i l e (ground (arith, free)) h.0, kept-Clear n i ls e h.1)
  ]

  spoilt-Clear :
      (n i : ℕ) (ls : List ℕ)
      → All (Clear n) ls
      → All (λ (p : ℕ × ℕ). Clear p.1 p.0) (at n (spoilt_by f i ls))
  unfolding spoilt_by
  spoilt-Clear n i [] h = tt
  spoilt-Clear n i (l ∷ ls) h = elim (Bool-cases (f.is_mod_set i l)) [
    | inl set ↦ rw set (h.0, spoilt-Clear n i ls h.1)
    | inr free ↦ rw free (spoilt-Clear n i ls h.1)
  ]

  at-Clear : (n : ℕ) (ls : List ℕ) → All (Clear n) ls → All (λ (p : ℕ × ℕ). Clear p.1 p.0) (at n ls)
  at-Clear n [] h = tt
  at-Clear n (l ∷ ls) h = (h.0, at-Clear n ls h.1)

  All-append : (P : ℕ × ℕ → Type 0) (xs ys : List (ℕ × ℕ)) → All P xs → All P ys → All P (xs ++ ys)
  All-append P [] ys h k = k
  All-append P (x ∷ xs) ys h k = (h.0, All-append P xs ys h.1 k)

  -- The variables after the first `idx` instructions of the block.
  record IsScanned (s : Scan) : Type 0 where
    numbers : (k w : ℕ) → k < s.idx → get_elem? block k ≡ some w → lookup w s.inst_number ≡ some k
    unspoilt : All (Clear s.idx) s.unspoilt
    spoilt : All (λ (p : ℕ × ℕ). Clear p.1 p.0) s.first_spoiler

  -- The same with the next instruction numbered.
  record IsNumbered (s : Scan) : Type 0 where
    numbers :
        (k w : ℕ) → k < suc s.idx → get_elem? block k ≡ some w → lookup w s.inst_number ≡ some k
    unspoilt : All (Clear s.idx) s.unspoilt
    spoilt : All (λ (p : ℕ × ℕ). Clear p.1 p.0) s.first_spoiler

  number-IsNumbered :
      (i : ℕ) (s : Scan) → get_elem? block s.idx ≡ some i → IsScanned s → IsNumbered (number i s)
  unfolding lookup
  number-IsNumbered i s e h = record {
    numbers = λ k w lt at_k. elim (Bool-cases (i == w)) [
      | inl same ↦
          let at_w : get_elem? block s.idx ≡ some w = rw (← ==→eq i w same) e in
          rw same (ap some (get_unique block s.idx k w distinct at_w at_k))
      | inr differ ↦ rw differ (h.numbers k w (before k w lt at_k differ) at_k)
    ];
    unspoilt = h.unspoilt;
    spoilt = h.spoilt;
  }
    where
      before : (k w : ℕ) → k < suc s.idx → get_elem? block k ≡ some w → (i == w) ≡ false → k < s.idx
      before k w lt at_k differ = elim (Bool-cases (k == s.idx)) [
        | inl same ↦
            let at_idx : get_elem? block s.idx ≡ some w = rw (← ==→eq k s.idx same) at_k in
            absurd (ground (arith, differ, eq→== i w (some-injective i w (sym e ∙ at_idx))))
        | inr other ↦ ground (arith, other)
      ]

  admit_load-IsNumbered :
      (i : ℕ) (outside may_write : Bool) (s : Scan)
      → get_elem? block s.idx ≡ some i
      → is_load f i ≡ true
      → is_used_outside_bb fuel f m i ≡ some outside
      → IsNumbered s
      → IsNumbered (admit_load i outside may_write s)
        × ((admit_load i outside may_write s).idx ≡ s.idx)
  unfolding admit_load
  admit_load-IsNumbered i false false s e load o h = (
    record {
      numbers = h.numbers;
      unspoilt = (
        record {
          place = s.idx;
          stands = e;
          loads = load;
          inside = o;
          clear = λ k w lo hi at_k. absurd (omega arith);
        },
        h.unspoilt,
      );
      spoilt = h.spoilt;
    },
    refl,
  )
  admit_load-IsNumbered i false true s e load o h = (h, refl)
  admit_load-IsNumbered i true may_write s e load o h = (h, refl)

  admit-IsNumbered :
      (i : ℕ) (load : Bool) (s s' : Scan)
      → get_elem? block s.idx ≡ some i
      → is_load f i ≡ load
      → admit fuel f m i load s ≡ some s'
      → IsNumbered s
      → IsNumbered s' × (s'.idx ≡ s.idx)
  unfolding admit
  admit-IsNumbered i false s s' e load eq h =
      let same = some-injective s s' eq in rw (← same) (h, refl)
  admit-IsNumbered i true s s' e load eq h =
      let (outside, o, eq') = bind-some (is_used_outside_bb fuel f m i) _ s' eq in
      let same = some-injective _ s' eq' in
      rw (← same)
        (admit_load-IsNumbered i outside (f.instruction i).may_write_to_memory s e load o h)

  harmless :
      (n i : ℕ) (ls : List ℕ)
      → get_elem? block n ≡ some i
      → (f.instruction i).may_write_to_memory ≡ false
      → All (Clear n) ls
      → All (Clear (suc n)) ls
  harmless n i ls e reads h = All-each (λ l c. Clear-next n i l e (ground (arith, reads)) c) ls h

  spoil-IsScanned :
      (i : ℕ) (may_write : Bool) (s : Scan)
      → get_elem? block s.idx ≡ some i
      → (f.instruction i).may_write_to_memory ≡ may_write
      → IsNumbered s
      → IsScanned (next (spoil f i may_write s)) × ((spoil f i may_write s).idx ≡ s.idx)
  unfolding spoil
  spoil-IsScanned i false s e reads h = (
    record {
      numbers = h.numbers;
      unspoilt = harmless s.idx i s.unspoilt e reads h.unspoilt;
      spoilt = h.spoilt;
    },
    refl,
  )
  spoil-IsScanned i true s e writes h = (
    record {
      numbers = h.numbers;
      unspoilt = kept-Clear s.idx i s.unspoilt e h.unspoilt;
      spoilt =
          All-append (λ p. Clear p.1 p.0) _ _ (spoilt-Clear s.idx i s.unspoilt h.unspoilt) h.spoilt;
    },
    refl,
  )

  -- `rest` is what is left of the block.
  abbrev IsRest : ℕ → List ℕ → Type 0
  IsRest n rest = (k : ℕ) → get_elem? rest k ≡ get_elem? block (n + k)

  scan-IsScanned :
      (rest : List ℕ) (s s' : Scan)
      → IsRest s.idx rest
      → scan fuel f m rest s ≡ some s'
      → IsScanned s
      → IsScanned s' × (s'.idx ≡ s.idx + length rest)
  unfolding scan
  scan-IsScanned [] s s' r e h = rw (← some-injective s s' e) (h, omega arith)
  scan-IsScanned (i ∷ rest) s s' r e h =
      let at_idx : get_elem? block s.idx ≡ some i =
        sym (r 0 ∙ ap (λ j. get_elem? block j) (omega arith)) in
      let (s₁, e₁, e₂) = bind-some (admit fuel f m i (is_load f i) (number i s)) _ s' e in
      let (h₁, n₁) =
        admit-IsNumbered i (is_load f i) (number i s) s₁ at_idx refl e₁
          (number-IsNumbered i s at_idx h) in
      let (h₂, n₂) = spoil-IsScanned i _ s₁ (rw n₁ at_idx) refl h₁ in
      let (h₃, n₃) =
        scan-IsScanned rest _ s'
          (λ k. r (suc k) ∙ ap (λ j. get_elem? block j) (omega (arith, n₁, n₂))) e₂ h₂ in
      (h₃, omega (arith, n₁, n₂, n₃))

  -- After the loop every instruction of the block has its position as its number, and every load
  -- with a spoiler is clear up to it.
  pub scan_lem :
      (s : Scan)
      → scan fuel f m block cleared ≡ some s
      → ((n w : ℕ) → get_elem? block n ≡ some w → lookup w s.inst_number ≡ some n)
        × All (λ (p : ℕ × ℕ). Clear p.1 p.0) (spoilers s)
  scan_lem s e =
      let (h, ends) =
        scan-IsScanned block cleared s (λ k. ap (λ j. get_elem? block j) (omega arith)) e
          (record { numbers = λ k w lt. absurd (omega arith); unspoilt = tt; spoilt = tt }) in
      (
        λ n w at_n. h.numbers n w (omega (arith, ends, get-below block n w at_n)) at_n,
        All-append (λ p. Clear p.1 p.0) _ _ (at-Clear s.idx s.unspoilt h.unspoilt) h.spoilt,
      )
