-- ===== src/Passes/Ends.antt =====
-- The recursions over uses of lib/Transforms/CustomPasses.cpp end where uses have no cycles, and
-- so does the pass.
use llvm2cpg.Prelude.{
  arith, ℕ, zero, suc, ◌+◌, ◌≤◌, ◌<◌, refl, Bool, true, false, Option, none, some, List, [], ◌∷◌,
}
use llvm2cpg.Prelude.Chain.{Ends, bind-Ends}
use llvm2cpg.Types.Naming.{lookup}
use llvm2cpg.Passes.Function.{Function, Marks, All, All-each, IsAcyclic, is_debug, is_load}
use llvm2cpg.Passes.Uses.{
  Until, earlier, later, valid_operand, valid_operands, valid_until, used_user, used_users,
  used_until, outside_user, outside_users, is_used_outside_bb,
}
use llvm2cpg.Passes.Inline.{
  Scan, admit, number, scan, inline_load, inline_loads, inline_block, inline_blocks, run, spoilers,
  cleared, force_inline_blocks,
}

module _ (m : Marks) (recurse : ℕ → Option Until) where
  operand-Ends :
      (marked : Bool) (inner : Option Until) (res : Until)
      → Ends inner
      → Ends (valid_operand marked inner res)
  unfolding valid_operand
  operand-Ends false inner res h = (res, refl)
  operand-Ends true none res h = absurd (ground (arith, h.1))
  operand-Ends true (some a) res h = (earlier a res, refl)

  operands-Ends :
      (js : List ℕ) (res : Until)
      → All (λ j. Ends (recurse j)) js
      → Ends (valid_operands recurse m js res)
  unfolding valid_operands
  operands-Ends [] res h = (res, refl)
  operands-Ends (j ∷ js) res h =
      bind-Ends (valid_operand (m j) (recurse j) res) (valid_operands recurse m js)
        (operand-Ends (m j) (recurse j) res h.0) (λ a. operands-Ends js a h.1)

user-Ends :
    (debug marked : Bool) (found : Option ℕ) (inner : Option (Option ℕ)) (res : Option ℕ)
    → Ends inner
    → Ends (used_user debug marked found inner res)
unfolding used_user
user-Ends true marked found inner res h = (res, refl)
user-Ends false false found inner res h = (later res found, refl)
user-Ends false true found none res h = absurd (ground (arith, h.1))
user-Ends false true found (some a) res h = (later (later res found) a, refl)

outside-Ends :
    (same debug marked : Bool) (inner rest : Option Bool)
    → Ends inner
    → Ends rest
    → Ends (outside_user same debug marked inner rest)
unfolding outside_user
outside-Ends false true marked inner rest h k = k
outside-Ends false false marked inner rest h k = (true, refl)
outside-Ends true debug false inner rest h k = k
outside-Ends true debug true none rest h k = absurd (ground (arith, h.1))
outside-Ends true debug true (some true) rest h k = (true, refl)
outside-Ends true debug true (some false) rest h k = k

module _ (f : Function) (m : Marks) where
  used_users-Ends :
      (inst_number : List (ℕ × ℕ)) (recurse : ℕ → Option (Option ℕ)) (us : List ℕ) (res : Option ℕ)
      → All (λ j. Ends (recurse j)) us
      → Ends (used_users recurse f m inst_number us res)
  unfolding used_users
  used_users-Ends nums recurse [] res h = (res, refl)
  used_users-Ends nums recurse (u ∷ us) res h =
      bind-Ends (used_user (is_debug f u) (m u) (lookup u nums) (recurse u) res)
        (used_users recurse f m nums us) (user-Ends (is_debug f u) (m u) _ (recurse u) res h.0)
        (λ a. used_users-Ends nums recurse us a h.1)

  outside_users-Ends :
      (recurse : ℕ → Option Bool) (parent : ℕ) (us : List ℕ)
      → All (λ j. Ends (recurse j)) us
      → Ends (outside_users recurse f m parent us)
  unfolding outside_users
  outside_users-Ends recurse parent [] h = (false, refl)
  outside_users-Ends recurse parent (u ∷ us) h =
      outside-Ends _ (is_debug f u) (m u) (recurse u) _ h.0
        (outside_users-Ends recurse parent us h.1)

module _ (n : ℕ) (f : Function) (acyclic : IsAcyclic n f) where
  open acyclic use {rank, bounded, operands, users}

  valid_until-Ends :
      (fuel : ℕ) (m : Marks) (first_spoiler : List (ℕ × ℕ)) (i : ℕ)
      → rank i < fuel
      → Ends (valid_until fuel f m first_spoiler i)
  unfolding valid_until
  valid_until-Ends zero m sp i lt = absurd (omega arith)
  valid_until-Ends (suc fuel) m sp i lt =
      operands-Ends m (valid_until fuel f m sp) (f.instruction i).operands _
        (All-each (λ j below. valid_until-Ends fuel m sp j (omega arith)) _ (operands i))

  used_until-Ends :
      (fuel : ℕ) (m : Marks) (inst_number : List (ℕ × ℕ)) (i : ℕ)
      → n ≤ rank i + fuel
      → Ends (used_until fuel f m inst_number i)
  unfolding used_until
  used_until-Ends zero m nums i le = absurd (omega (arith, bounded i))
  used_until-Ends (suc fuel) m nums i le =
      used_users-Ends f m nums (used_until fuel f m nums) (f.instruction i).users none
        (All-each (λ u above. used_until-Ends fuel m nums u (omega (arith, above.0))) _ (users i))

  outside_bb-Ends :
      (fuel : ℕ) (m : Marks) (i : ℕ) → n ≤ rank i + fuel → Ends (is_used_outside_bb fuel f m i)
  unfolding is_used_outside_bb
  outside_bb-Ends zero m i le = absurd (omega (arith, bounded i))
  outside_bb-Ends (suc fuel) m i le =
      outside_users-Ends f m (is_used_outside_bb fuel f m) _ (f.instruction i).users
        (All-each (λ u above. outside_bb-Ends fuel m u (omega (arith, above.0))) _ (users i))

  admit-Ends : (m : Marks) (i : ℕ) (load : Bool) (s : Scan) → Ends (admit n f m i load s)
  unfolding admit
  admit-Ends m i false s = (s, refl)
  admit-Ends m i true s =
      bind-Ends (is_used_outside_bb n f m i) _ (outside_bb-Ends n m i (omega arith))
        (λ o. (_, refl))

  scan-Ends : (m : Marks) (block : List ℕ) (s : Scan) → Ends (scan n f m block s)
  unfolding scan
  scan-Ends m [] s = (s, refl)
  scan-Ends m (i ∷ rest) s =
      bind-Ends (admit n f m i (is_load f i) (number i s)) _ (admit-Ends m i _ _)
        (λ s₁. scan-Ends m rest _)

  load-Ends : (s : Scan) (i : ℕ) (m : Marks) → Ends (inline_load n f s i m)
  unfolding inline_load
  load-Ends s i m =
      bind-Ends (valid_until n f m (spoilers s) i) _ (valid_until-Ends n m _ i (bounded i))
        (λ valid.
          bind-Ends (used_until n f m s.inst_number i) _ (used_until-Ends n m _ i (omega arith))
            (λ used. (_, refl)))

  loads-Ends : (s : Scan) (ps : List (ℕ × ℕ)) (m : Marks) → Ends (inline_loads n f s ps m)
  unfolding inline_loads
  loads-Ends s [] m = (m, refl)
  loads-Ends s (p ∷ ps) m =
      bind-Ends (inline_load n f s p.1 m) _ (load-Ends s p.1 m) (loads-Ends s ps)

  block-Ends : (block : List ℕ) (m : Marks) → Ends (inline_block n f block m)
  unfolding inline_block
  block-Ends block m =
      bind-Ends (scan n f m block cleared) _ (scan-Ends m block cleared) (λ s. loads-Ends s _ m)

  blocks-Ends : (blocks : List (ℕ × List ℕ)) (m : Marks) → Ends (inline_blocks n f blocks m)
  unfolding inline_blocks
  blocks-Ends [] m = (m, refl)
  blocks-Ends ((b, block) ∷ rest) m =
      bind-Ends (inline_block n f block m) _ (block-Ends block m) (blocks-Ends rest)

  -- Fuel for the depth of the uses is enough for the pass.
  pub run-Ends : (m : Marks) → Ends (run n f m)
  unfolding run
  run-Ends m = blocks-Ends f.blocks (force_inline_blocks f f.blocks m)
