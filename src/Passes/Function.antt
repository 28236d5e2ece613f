-- ===== src/Passes/Function.antt =====
-- A function as the passes of lib/Transforms/CustomPasses.cpp read it, and what LLVM promises of it.
-- Instructions are known by a number, and so are blocks.
use llvm2cpg.Prelude.{ℕ, ◌<◌, ◌≡◌, ◌≢◌, Bool, true, false, List, [], ◌∷◌, ◌&&◌, ◌==◌, if◌then◌else◌}
use llvm2cpg.Prelude.Keys.{Distinct}
pub use llvm2cpg.Prelude.Each.{All, In, All-In, All-each, All-get, get_unique}

-- llvm::Instruction::getOpcode, as far as the passes look at it. Whether the source and the
-- destination of a bitcast are pointers is with it.
pub data Opcode : Type 0 where
  load bitcast_pointers bitcast_other addr_space_cast get_element_ptr : Opcode
  ptr_to_int int_to_ptr debug_intrinsic phi other_opcode : Opcode

-- `operands` and `users` are those that are instructions.
pub record Instruction : Type 0 where
  pub opcode : Opcode
  pub operands : List ℕ
  pub users : List ℕ
  pub parent : ℕ
  pub may_write_to_memory : Bool

-- `is_mod_set i l` is LLVM's alias analysis: isModSet(AA.getModRefInfo(i, MemoryLocation::get(l))).
pub record Function : Type 0 where
  pub instruction : ℕ → Instruction
  pub blocks : List (ℕ × List ℕ)
  pub is_mod_set : ℕ → ℕ → Bool

-- Which instructions carry the metadata "shiftleft.inline".
abbrev pub Marks : Type 0
Marks = ℕ → Bool

abbrev pub set_metadata : ℕ → Marks → Marks
set_metadata i m j = if j == i then true else m j

abbrev pub is_debug : Function → ℕ → Bool
is_debug f i = elim (f.instruction i).opcode [ debug_intrinsic ↦ true | _ ↦ false ]

abbrev pub is_load_opcode : Opcode → Bool
is_load_opcode load = true
is_load_opcode _ = false

abbrev pub is_load : Function → ℕ → Bool
is_load f i = is_load_opcode (f.instruction i).opcode

-- The instruction may change what the load reads.
abbrev pub spoils : Function → ℕ → ℕ → Bool
spoils f i l = (f.instruction i).may_write_to_memory && f.is_mod_set i l

-- The uses of SSA values: operands come earlier in some ranking with ranks below `n`, as they do
-- where there are no phis, and the users of a value have it as an operand.
pub record IsAcyclic (n : ℕ) (f : Function) : Type 0 where
  pub rank : ℕ → ℕ
  pub bounded : (i : ℕ) → rank i < n
  pub operands : (i : ℕ) → All (λ j. rank j < rank i) (f.instruction i).operands
  pub users :
      (i : ℕ)
      → All (λ u. (rank i < rank u) × In i (f.instruction u).operands) (f.instruction i).users

-- Blocks have different numbers, an instruction stands once in its block, and knows it.
abbrev pub AreLaidOut : Function → List (ℕ × List ℕ) → Type 0
AreLaidOut f [] = Unit {0}
AreLaidOut f ((b, block) ∷ rest) =
    All (λ i. (f.instruction i).parent ≡ b) block
    × Distinct block
    × All (λ (other : ℕ × List ℕ). other.0 ≢ b) rest
    × AreLaidOut f rest
