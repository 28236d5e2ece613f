-- ===== src/Examples/Passes.antt =====
-- The passes at a block that loads twice from memory that a store may change.
use llvm2cpg.Prelude.{
  ℕ, zero, suc, ◌≡◌, refl, inl, Bool, true, false, Option, none, some, List, [], ◌∷◌, arith, ◌<◌,
  ltb, if◌then◌else◌,
}
use llvm2cpg.Passes.Function.{
  Opcode, Instruction, Function, Marks, All, In, IsAcyclic, load, get_element_ptr, other_opcode,
}
use llvm2cpg.Passes.Uses.{valid_until}
use llvm2cpg.Passes.Valid.{valid_until-cycle}
use llvm2cpg.Passes.Inline.{run}
use llvm2cpg.Passes.Safety.{IsSafe, run-IsSafe}

abbrev instruction : Opcode → List ℕ → List ℕ → Bool → Instruction
instruction opcode operands users writes = record {
  opcode = opcode;
  operands = operands;
  users = users;
  parent = 0;
  may_write_to_memory = writes;
}

-- 0: %a = load, 1: %p = getelementptr %a, 2: %b = load, 3: store to %p, 4: return %b
abbrev code : ℕ → Instruction
code zero = instruction load [] (1 ∷ []) false
code (suc zero) = instruction get_element_ptr (0 ∷ []) (3 ∷ []) false
code (suc (suc zero)) = instruction load [] (4 ∷ []) false
code (suc (suc (suc zero))) = instruction other_opcode (1 ∷ []) [] true
code (suc (suc (suc (suc zero)))) = instruction other_opcode (2 ∷ []) [] false
code (suc (suc (suc (suc (suc i))))) = instruction other_opcode [] [] false

abbrev function : Function
function = record {
  instruction = code;
  blocks = (0, 0 ∷ 1 ∷ 2 ∷ 3 ∷ 4 ∷ []) ∷ [];
  is_mod_set = λ i l. true;
}

abbrev unmarked : Marks
unmarked i = false

-- The first load is read again by the store only; the second is spoilt before its use.
abbrev marked : Option Marks → List Bool
marked none = []
marked (some m) = m 0 ∷ m 1 ∷ m 2 ∷ m 3 ∷ m 4 ∷ []

run_marks : marked (run 5 function unmarked) ≡ true ∷ true ∷ false ∷ false ∷ false ∷ []
unfolding run
run_marks = refl

abbrev rank : ℕ → ℕ
rank i = if ltb i 5 then i else 0

function-IsAcyclic : IsAcyclic 5 function
function-IsAcyclic = record {
  rank = rank;
  bounded = λ i. ground arith;
  operands = operands;
  users = users;
}
  where
    operands : (i : ℕ) → All (λ j. rank j < rank i) (code i).operands
    operands zero = tt
    operands (suc zero) = (omega arith, tt)
    operands (suc (suc zero)) = tt
    operands (suc (suc (suc zero))) = (omega arith, tt)
    operands (suc (suc (suc (suc zero)))) = (omega arith, tt)
    operands (suc (suc (suc (suc (suc i))))) = tt

    users : (i : ℕ) → All (λ u. (rank i < rank u) × In i (code u).operands) (code i).users
    users zero = ((omega arith, inl refl), tt)
    users (suc zero) = ((omega arith, inl refl), tt)
    users (suc (suc zero)) = ((omega arith, inl refl), tt)
    users (suc (suc (suc zero))) = tt
    users (suc (suc (suc (suc zero)))) = tt
    users (suc (suc (suc (suc (suc i))))) = tt

run-IsSafe_example : (m : Marks) × (run 5 function unmarked ≡ some m) × IsSafe function m
run-IsSafe_example =
    run-IsSafe 5 function unmarked function-IsAcyclic (ground arith, ground arith, tt, tt)
      (λ l h. refl)

-- %0 = getelementptr %0, in a block that is not reached
abbrev cycle : Function
cycle = record {
  instruction = λ i. instruction get_element_ptr (0 ∷ []) (0 ∷ []) false;
  blocks = (0, 0 ∷ []) ∷ [];
  is_mod_set = λ i l. false;
}

valid_until-cycle_example : valid_until 9 cycle (λ i. true) [] 0 ≡ none
valid_until-cycle_example = valid_until-cycle 9 cycle (λ i. true) [] 0 (inl refl) refl
