-- ===== src/Passes/Valid.antt =====
-- validUntil of lib/Transforms/CustomPasses.cpp: the first spoiler of everything that is written
-- in place in an instruction.
use llvm2cpg.Prelude.{
  arith, ℕ, zero, suc, ◌^◌, ◌≤◌, ◌≡◌, inl, inr, refl, Bool, true, false, Option, none, some, List,
  [], ◌∷◌, Option-cases,
}
use mathlib.Core.Option.{some-injective, none-ne-some}
use llvm2cpg.Types.Naming.{lookup}
use llvm2cpg.Passes.Function.{Function, Marks, All, All-In, In}
use llvm2cpg.Passes.Uses.{
  bind-some, Until, earlier, valid_base, valid_operand, valid_operands, valid_until,
}
use llvm2cpg.Passes.Reaches.{Reaches, use_of, through}

earlier-left : (a b : Until) → (earlier a b).0 ≤ a.0
earlier-left a b = ground arith

earlier-right : (a b : Until) → (earlier a b).0 ≤ b.0
earlier-right a b = ground arith

operand-bound :
    (marked : Bool) (inner : Option Until) (res v : Until)
    → valid_operand marked inner res ≡ some v
    → (v.0 ≤ res.0) × (marked ≡ true → (a : Until) × (inner ≡ some a) × (v.0 ≤ a.0))
unfolding valid_operand
operand-bound false inner res v h =
    (rw (← some-injective res v h) (omega arith), λ k. absurd (ground (arith, k)))
operand-bound true none res v h = absurd (none-ne-some v h)
operand-bound true (some a) res v h =
    let e = some-injective (earlier a res) v h in
    (rw (← e) (earlier-right a res), λ k. (a, refl, rw (← e) (earlier-left a res)))

module _ (m : Marks) (recurse : ℕ → Option Until) where
  operands-kept :
      (js : List ℕ) (res v : Until) → valid_operands recurse m js res ≡ some v → v.0 ≤ res.0
  unfolding valid_operands
  operands-kept [] res v h = rw (← some-injective res v h) (omega arith)
  operands-kept (j ∷ js) res v h =
      let (next, e, k) =
        bind-some (valid_operand (m j) (recurse j) res) (valid_operands recurse m js) v h in
      omega (arith, (operand-bound (m j) (recurse j) res next e).0, operands-kept js next v k)

  operands-bound :
      (j : ℕ) (js : List ℕ) (res v : Until)
      → valid_operands recurse m js res ≡ some v
      → In j js
      → m j ≡ true
      → (a : Until) × (recurse j ≡ some a) × (v.0 ≤ a.0)
  unfolding valid_operands
  operands-bound j [] res v h i marked = absurd i
  operands-bound j (k ∷ js) res v h (inl same) marked =
      let (next, e, rest) =
        bind-some (valid_operand (m k) (recurse k) res) (valid_operands recurse m js) v h in
      let (a, inner, le) = (operand-bound (m k) (recurse k) res next e).1 (rw same at marked) in
      (a, rw same inner, omega (arith, le, operands-kept js next v rest))
  operands-bound j (k ∷ js) res v h (inr i) marked =
      let (next, e, rest) =
        bind-some (valid_operand (m k) (recurse k) res) (valid_operands recurse m js) v h in
      operands-bound j js next v rest i marked

base-bound : (i n : ℕ) (found : Option ℕ) → found ≡ some n → (valid_base i found).0 ≤ n
unfolding valid_base
base-bound i n none h = absurd (none-ne-some n h)
base-bound i n (some k) h =
    let e = some-injective k n h in rw (← e) (earlier-left (k, some i) (2 ^ 30, none))

module _ (f : Function) (m : Marks) (first_spoiler : List (ℕ × ℕ)) where
  -- An instruction is valid until its own spoiler at most.
  pub valid_until-own :
      (fuel i n : ℕ) (v : Until)
      → valid_until fuel f m first_spoiler i ≡ some v
      → lookup i first_spoiler ≡ some n
      → v.0 ≤ n
  unfolding valid_until
  valid_until-own zero i n v h e = absurd (none-ne-some v h)
  valid_until-own (suc fuel) i n v h e = omega (
    arith,
    operands-kept m _ (f.instruction i).operands (valid_base i (lookup i first_spoiler)) v h,
    base-bound i n _ e,
  )

  module _
      (users : (i : ℕ) → All (λ u. In i (f.instruction u).operands) (f.instruction i).users) where
    -- What an instruction reaches is valid at most as long as it, if it is marked.
    valid_until-step :
        (fuel i x : ℕ) (v : Until)
        → valid_until fuel f m first_spoiler x ≡ some v
        → In x (f.instruction i).users
        → m i ≡ true
        → (less : ℕ) × (w : Until) × (valid_until less f m first_spoiler i ≡ some w) × (v.0 ≤ w.0)
    unfolding valid_until
    valid_until-step zero i x v h u k = absurd (none-ne-some v h)
    valid_until-step (suc fuel) i x v h u k =
        let operand = All-In (λ y. In i (f.instruction y).operands) x _ (users i) u in
        let (w, e, le) = operands-bound m _ i (f.instruction x).operands _ v h operand k in
        (fuel, w, e, le)

    valid_until-reach :
        (fuel i x : ℕ) (v : Until)
        → valid_until fuel f m first_spoiler x ≡ some v
        → Reaches f m i x
        → m i ≡ true
        → (less : ℕ) × (w : Until) × (valid_until less f m first_spoiler i ≡ some w) × (v.0 ≤ w.0)
    valid_until-reach fuel i x v h (use_of _ _ u d) k = valid_until-step fuel i x v h u k
    valid_until-reach fuel i x v h (through _ j _ u d marked r) k =
        let (less, w, e, le) = valid_until-reach fuel j x v h r marked in
        let (least, z, e', le') = valid_until-step less i j w e u k in (least, z, e', omega arith)

    pub valid_until-bound :
        (fuel i x n : ℕ) (v : Until)
        → valid_until fuel f m first_spoiler x ≡ some v
        → Reaches f m i x
        → m i ≡ true
        → lookup i first_spoiler ≡ some n
        → v.0 ≤ n
    valid_until-bound fuel i x n v h r k e =
        let (less, w, e', le) = valid_until-reach fuel i x v h r k in
        omega (arith, valid_until-own less i n w e' e)

operands-stuck :
    (m : Marks) (recurse : ℕ → Option Until) (j : ℕ) (js : List ℕ) (res : Until)
    → In j js
    → m j ≡ true
    → recurse j ≡ none
    → valid_operands recurse m js res ≡ none
unfolding valid_operands valid_operand
operands-stuck m recurse j [] res i k e = absurd i
operands-stuck m recurse j (v ∷ js) res (inl same) k e = rw (← same, k, e) refl
operands-stuck m recurse j (v ∷ js) res (inr i) k e =
    elim (Option-cases (valid_operand (m v) (recurse v) res)) [
      | inl stops ↦ rw stops refl
      | inr (next, goes) ↦ rw goes (operands-stuck m recurse j js next i k e)
    ]

-- If an instruction that is marked is among its own operands, then validUntil runs out of every
-- fuel on it, so that the recursion of the code does not end.
pub valid_until-cycle :
    (fuel : ℕ) (f : Function) (m : Marks) (first_spoiler : List (ℕ × ℕ)) (i : ℕ)
    → In i (f.instruction i).operands
    → m i ≡ true
    → valid_until fuel f m first_spoiler i ≡ none
unfolding valid_until
valid_until-cycle zero f m sp i own k = refl
valid_until-cycle (suc fuel) f m sp i own k =
    operands-stuck m (valid_until fuel f m sp) i _ _ own k (valid_until-cycle fuel f m sp i own k)
