-- ===== src/Values.antt =====
-- LLVM values as the emitter reads them. A value is the tree of its operands: what a pointer to
-- an operand reaches in LLVM is written in place, and its identity is `address`.
use llvm2cpg.Prelude.{ℕ, String, Bool, Option, List}
use llvm2cpg.Types.{Ty}
use llvm2cpg.Operators.{BinaryOpcode, Predicate, AtomicOperation}

-- `printed` and `printed_bare` are what LLVM's printAsOperand gives with and without the type.
pub record Info : Type 0 where
  pub address : ℕ
  pub name : String
  pub type : Ty
  pub printed : String
  pub printed_bare : String

-- `bits` of an APInt: its width and its value as an unsigned number.
pub record Integer : Type 0 where
  pub width : ℕ
  pub value : ℕ

-- A ConstantDataArray that is a C string: its bytes without the last, as text, and LLVM's answer
-- whether they are UTF-8.
pub record CString : Type 0 where
  pub bytes : List ℕ
  pub text : String
  pub is_utf8 : Bool

pub data Constant : Type 0 where
  constant_int : Integer → Constant
  null_pointer : Constant
  constant_fp : String → Constant
  aggregate_zero undef : Constant
  metadata_as_value : Constant
  inline_asm : String → Constant
  data_array : Option CString → Constant
  struct_or_array : Constant
  other_constant : Constant

pub record Literal : Type 0 where
  pub info : Info
  pub constant : Constant

-- Operands of the metadata node "shiftleft.inline_string_literal": none is the null constant.
abbrev pub InlineStrings : Type 0
InlineStrings = List (Option Literal)

-- The metadata of an instruction, its opcode name, and its source position when it has one that
-- is not inlined from elsewhere.
pub record Marks : Type 0 where
  pub inline : Bool
  pub inline_string_literal : Option InlineStrings
  pub objc_type_hint : Option String
  pub opcode_name : String
  pub debug_loc : Option (ℕ × ℕ)

-- `full_name` and `name` of DemangledName
pub record FunctionInfo : Type 0 where
  pub demangled_full_name : String
  pub demangled_name : String
  pub function_type : Ty

mutual
  pub data Value : Type 0 where
    argument : Info → Value
    instruction : Info → Marks → Instr → Value
    global_variable : Info → Option Literal → Initializer → Value
    global_alias : Info → Value
    function : Info → FunctionInfo → Value
    constant_expr : Info → Instr → Value
    constant : Literal → Value

  pub data Initializer : Type 0 where
    no_initializer : Initializer
    initialized : Value → Initializer

  -- An index carries the type that LLVM's getIndexedType gives after it. The Boolean of a cast
  -- says that it is a bit cast. A load has one operand, so that its inlined string, like that of a
  -- global variable, is at operand 0 of the metadata and is not the null constant.
  pub data Instr : Type 0 where
    get_element_ptr : Value → Value → Ty → Indexes → Instr
    cast : Bool → Ty → Value → Instr
    load : Option Literal → Value → Instr
    store : Value → Value → Instr
    binary : BinaryOpcode → Value → Value → Instr
    cmp : (opcode_name predicate_name : String) → Predicate → Value → Value → Instr
    select : Value → Value → Value → Instr
    extract_value : Value → List ℕ → Instr
    insert_value : Value → Value → List ℕ → Instr
    extract_element : Value → Value → Instr
    insert_element : Value → Value → Value → Instr
    shuffle_vector : Value → Value → Value → Instr
    unary : Value → Instr
    atomic_rmw : AtomicOperation → Value → Value → Instr
    atomic_cmp_xchg : Value → Value → Value → Instr
    call : Value → Arguments → Instr
    return_void : Instr
    return_value : Value → Instr
    alloca dbg_variable phi branch switch indirect_br unreachable : Instr
    other_instruction : Instr

  pub data Indexes : Type 0 where
    no_index : Indexes
    index : Value → Ty → Indexes → Indexes

  pub data Arguments : Type 0 where
    no_argument : Arguments
    argument_then : Value → Arguments → Arguments
