-- ===== src/Passes/Marking.antt =====
-- One more mark in LoadInlinePass::run of lib/Transforms/CustomPasses.cpp: what it changes for the
-- loads that are marked already.
use llvm2cpg.Prelude.{
  arith, ℕ, ◌≤◌, ◌<◌, ◌≡◌, ◌≢◌, inl, inr, sym, ap, ◌∙◌, true, false, Option, none, some, List, [],
  ◌∷◌, get_elem?, Bool-cases, ◌==◌, ==→eq, subst,
}
use mathlib.Core.Option.{some-injective}
use llvm2cpg.Prelude.Keys.{Distinct}
use llvm2cpg.Types.Naming.{lookup}
use llvm2cpg.Passes.Function.{
  Function, Marks, All, All-get, In, get_unique, spoils, is_load, set_metadata,
}
use llvm2cpg.Passes.Uses.{bind-some, Until, valid_until, used_until}
use llvm2cpg.Passes.Reaches.{Reaches, Reaches-mark, AtMost, AtMost-trans, used_until-bound}
use llvm2cpg.Passes.Valid.{valid_until-own, valid_until-bound}
use llvm2cpg.Passes.Inline.{Scan, spoilers, fits, inline_load, inline_loads}
use llvm2cpg.Passes.Scanned.{Clear}

module _ (f : Function) where
  -- What the load reaches stands in its block,
  abbrev pub Inside : Marks → ℕ → Type 0
  Inside m l = (x : ℕ) → Reaches f m l x → (f.instruction x).parent ≡ (f.instruction l).parent

  -- and nothing between the load and what it reaches may change what it reads.
  abbrev pub Kept : Marks → ℕ → Type 0
  Kept m l =
      (block : List ℕ) (x a k n w : ℕ)
      → lookup (f.instruction l).parent f.blocks ≡ some block
      → Reaches f m l x
      → get_elem? block a ≡ some l
      → get_elem? block k ≡ some w
      → get_elem? block n ≡ some x
      → a < k
      → k < n
      → spoils f w l ≡ false

  Inside-mark : (m : Marks) (b l : ℕ) → Inside m b → Inside m l → Inside (set_metadata b m) l
  Inside-mark m b l hb hl x r = elim (Reaches-mark f m b l x r) [
    | inl before ↦ hl x before
    | inr (inl e, after) ↦ rw e (hb x after)
    | inr (inr to_b, after) ↦ hb x after ∙ hl b to_b
  ]

  -- Every load with a spoiler, and every load that is marked.
  module _ (users : (i : ℕ) → All (λ u. In i (f.instruction u).operands) (f.instruction i).users)
      (fuel : ℕ) (m₀ : Marks) (number : ℕ) (block : List ℕ) (distinct : Distinct block)
      (found : lookup number f.blocks ≡ some block)
      (parents : All (λ i. (f.instruction i).parent ≡ number) block) (s : Scan)
      (numbers : (n w : ℕ) → get_elem? block n ≡ some w → lookup w s.inst_number ≡ some n) where
    abbrev pub IsClear : ℕ → ℕ → Type 0
    IsClear n l = Clear fuel f m₀ block distinct n l

    -- `p` is the load's spoiler in this block.
    abbrev pub HasSpoiler : ℕ → ℕ → Type 0
    HasSpoiler l p = (lookup l (spoilers s) ≡ some p) × IsClear p l

    pub record IsMarked (m : Marks) : Type 0 where
      pub inside : (l p : ℕ) → lookup l (spoilers s) ≡ some p → Inside m l
      pub safe : (l : ℕ) → is_load f l ≡ true → m l ≡ true → Inside m l × Kept m l
      pub here :
          (l : ℕ)
          → is_load f l ≡ true
          → m l ≡ true
          → (f.instruction l).parent ≡ number
          → (p : ℕ) × HasSpoiler l p
      pub others : (l : ℕ) → (f.instruction l).parent ≢ number → m l ≡ m₀ l

    within :
        (l p n k x w : ℕ) (other : List ℕ)
        → IsClear p l
        → AtMost (lookup x s.inst_number) (some p)
        → lookup (f.instruction l).parent f.blocks ≡ some other
        → (a : ℕ) → get_elem? other a ≡ some l
        → get_elem? other k ≡ some w
        → get_elem? other n ≡ some x
        → a < k
        → k < n
        → spoils f w l ≡ false
    within l p n k x w other c le look a at_a at_k at_n lo hi =
        let parent : (f.instruction l).parent ≡ number =
          All-get (λ i. (f.instruction i).parent ≡ number) block c.place l parents c.stands in
        let e : other ≡ block =
          some-injective other block (sym look ∙ ap (λ j. lookup j f.blocks) parent ∙ found) in
        let same = get_unique block a c.place l distinct (rw (← e) at_a) c.stands in
        let low : n ≤ p = subst (λ o. AtMost o (some p)) (numbers n x (rw (← e) at_n)) le in
        c.clear k w (omega arith) (omega arith) (rw (← e) at_k)

    fits-AtMost :
        (used : Option ℕ) (valid : Until) → fits used valid ≡ true → AtMost used (some valid.0)
    fits-AtMost none valid h = tt
    fits-AtMost (some u) valid h = ground (arith, h)

    module _ (m : Marks) (h : IsMarked m) (b p : ℕ) (spoiler : HasSpoiler b p) (valid : Until)
        (valid_b : valid_until fuel f m (spoilers s) b ≡ some valid) (used : Option ℕ)
        (used_b : used_until fuel f m s.inst_number b ≡ some used)
        (fit : fits used valid ≡ true) where
      Inside-b : Inside m b
      Inside-b = h.inside b p spoiler.0

      parent_b : (f.instruction b).parent ≡ number
      parent_b =
          All-get (λ i. (f.instruction i).parent ≡ number) block spoiler.1.place b parents
            spoiler.1.stands

      -- What `b` reaches comes before any position that `b` is valid until.
      used-AtMost :
          (x q : ℕ) → Reaches f m b x → valid.0 ≤ q → AtMost (lookup x s.inst_number) (some q)
      used-AtMost x q r le =
          AtMost-trans (lookup x s.inst_number) (some valid.0) (some q)
            (AtMost-trans (lookup x s.inst_number) used (some valid.0)
              (used_until-bound f m s.inst_number fuel b x used used_b r)
              (fits-AtMost used valid fit))
            le

      marked_Kept : Kept (set_metadata b m) b
      marked_Kept other x a k n w look r at_a at_k at_n lo hi =
          within b p n k x w other spoiler.1
            (used-AtMost x p after
              (valid_until-own f m (spoilers s) fuel b p valid valid_b spoiler.0))
            look a at_a at_k at_n lo hi
        where
          after : Reaches f m b x
          after = elim (Reaches-mark f m b b x r) [ inl before ↦ before | inr (to_b, rest) ↦ rest ]

      as_b : (l : ℕ) → l ≡ b → Kept (set_metadata b m) l
      as_b l e = rw e marked_Kept

      other_Kept : (l : ℕ) → is_load f l ≡ true → m l ≡ true → Kept (set_metadata b m) l
      other_Kept l load marked other x a k n w look r at_a at_k at_n lo hi =
          elim (Reaches-mark f m b l x r) [
            | inl before ↦ (h.safe l load marked).1 other x a k n w look before at_a at_k at_n lo hi
            | inr (inl same, after) ↦ as_b l same other x a k n w look r at_a at_k at_n lo hi
            | inr (inr to_b, after) ↦
                let parent = sym ((h.safe l load marked).0 b to_b) ∙ parent_b in
                let (q, found_q) = h.here l load marked parent in
                within l q n k x w other found_q.1
                  (used-AtMost x q after (
                    valid_until-bound f m (spoilers s) users fuel l b q valid valid_b to_b marked
                      found_q.0))
                  look a at_a at_k at_n lo hi
          ]

      -- The mark on `b` keeps what holds of the others.
      pub mark-IsMarked : IsMarked (set_metadata b m)
      mark-IsMarked = record {
        inside = λ l q e. Inside-mark m b l Inside-b (h.inside l q e);
        safe = λ l load marked. elim (Bool-cases (l == b)) [
          | inl same ↦
              let e = ==→eq l b same in (Inside-mark m b l Inside-b (rw e Inside-b), as_b l e)
          | inr differ ↦
              let before : m l ≡ true = rw differ at marked in
              (Inside-mark m b l Inside-b (h.safe l load before).0, other_Kept l load before)
        ];
        here = λ l load marked parent. elim (Bool-cases (l == b)) [
          | inl same ↦ (p, rw (==→eq l b same) spoiler)
          | inr differ ↦
              let before : m l ≡ true = rw differ at marked in h.here l load before parent
        ];
        others = λ l apart. elim (Bool-cases (l == b)) [
          | inl same ↦
              absurd (apart (ap (λ j. (f.instruction j).parent) (==→eq l b same) ∙ parent_b))
          | inr differ ↦ rw differ (h.others l apart)
        ];
      }

    load-IsMarked :
        (m m' : Marks) (b p : ℕ)
        → IsMarked m
        → HasSpoiler b p
        → inline_load fuel f s b m ≡ some m'
        → IsMarked m'
    unfolding inline_load
    load-IsMarked m m' b p h spoiler e =
        let (valid, valid_b, e₁) = bind-some (valid_until fuel f m (spoilers s) b) _ m' e in
        let (used, used_b, e₂) = bind-some (used_until fuel f m s.inst_number b) _ m' e₁ in
        let same = some-injective _ m' e₂ in
        elim (Bool-cases (fits used valid)) [
          | inl fit ↦
              rw (← same) (rw fit (mark-IsMarked m h b p spoiler valid valid_b used used_b fit))
          | inr misfit ↦ rw (← same) (rw misfit h)
        ]

    pub loads-IsMarked :
        (ps : List (ℕ × ℕ)) (m m' : Marks)
        → All (λ (q : ℕ × ℕ). (p : ℕ) × HasSpoiler q.1 p) ps
        → IsMarked m
        → inline_loads fuel f s ps m ≡ some m'
        → IsMarked m'
    unfolding inline_loads
    loads-IsMarked [] m m' hs h e = rw (← some-injective m m' e) h
    loads-IsMarked (q ∷ ps) m m' hs h e =
        let (m₁, e₁, e₂) = bind-some (inline_load fuel f s q.1 m) (inline_loads fuel f s ps) m' e in
        loads-IsMarked ps m₁ m' hs.1 (load-IsMarked m m₁ q.1 hs.0.0 h hs.0.1 e₁) e₂
