-- ===== src/Examples.antt =====
-- The theorems at concrete inputs.
mod Demangler
mod Tool
mod Transforms
mod Passes
mod Declarations
mod Canonical
mod ObjC
use llvm2cpg.Prelude.{
  ℕ, zero, suc, ◌+◌, length, arith, ◌≡◌, refl, String, false, true, none, some, List, [], ◌∷◌,
}
use llvm2cpg.Types.{Ty, Struct, primitive, void, integer, pointer, identified}
use llvm2cpg.Types.Naming.{TypeEmitter, record_type, type_to_string}
use llvm2cpg.Types.Recursive.{nested, type_to_string-unnamed}
use llvm2cpg.Types.Recording.{Recorded, record_type-Recorded}
use llvm2cpg.Types.Equality.{Types, Walk, construct_type_vector, start}
use llvm2cpg.Types.Fuel.{size, unseen}
use llvm2cpg.Types.Numbering.{Numbered, construct_type_vector-Numbered}
use llvm2cpg.Types.Total.{IsTable, construct_type_vector-total}
use llvm2cpg.Operators.{BinaryOpcode}
use llvm2cpg.Graph.{
  Graph, empty, new_node, set_properties, get_code, get_entry, find_code, call, code,
}
use llvm2cpg.Values.{
  Info, Marks, Value, Instr, argument, instruction, binary, store, load, branch, no_argument,
  argument_then,
}
use llvm2cpg.Emitter.State.{Emitter}
use llvm2cpg.Emitter.Expressions.{emit_ref_or_constant}
use llvm2cpg.Emitter.FunctionCall.{emit_cast_or_indirect, is_inline_assembly}
use llvm2cpg.Emitter.Visit.{visit, emit_unreachable}
use llvm2cpg.Emitter.Block.{Instruction, Block, returns, goes_to, emit_block, emit_instructions}
use llvm2cpg.Emitter.Method.{Emitted, emit_blocks, connect_terminators}
use llvm2cpg.Emitter.Method.{Method, emit_method}
use llvm2cpg.Types.{function, cons, nil}
use llvm2cpg.Emission.Method.{Whole, method-Whole}
use llvm2cpg.Emission.Paths.{Visited, Expression, visit-Visited, ref_or_constant-Expression}
use llvm2cpg.Emission.Joined.{Joined, block-Joined}
use llvm2cpg.Emission.Bodies.{Bodies, InOrder, blocks-Bodies, order-instructions}
use llvm2cpg.Emission.Terminators.{Linked, Exactly, all_leaving, terminators-Linked}
use llvm2cpg.Emission.Codes.{get_code-set_properties, indirect_call-code}

abbrev int_type : Ty
int_type = integer 32

abbrev info : ℕ → String → Ty → Info
info address name type = record {
  address = address;
  name = name;
  type = type;
  printed = name;
  printed_bare = name;
}

abbrev marks : Marks
marks = record {
  inline = false;
  inline_string_literal = none;
  objc_type_hint = none;
  opcode_name = "other";
  debug_loc = some (7, 3);
}

abbrev inlined : Marks
inlined = record {
  inline = true;
  inline_string_literal = none;
  objc_type_hint = none;
  opcode_name = "load";
  debug_loc = none;
}

abbrev no_struct : ℕ → Struct
no_struct a = record { name = none; body = none; is_packed = false }

abbrev types : TypeEmitter
types = record {
  depth = 2;
  structs = no_struct;
  print_type = λ t. "i32";
  canonical_names = λ a. "S";
  canonical_opaque_names = [];
  struct_member_names = [];
  recorded_types = [];
}

-- The locals are the values 1 (`p`, with node 90) and 3 (`x`, with node 91).
abbrev emitter : Emitter
emitter = record {
  graph = empty;
  types = types;
  namespace = "<global>";
  line = 0;
  column = 0;
  locals = (1, 90) ∷ (3, 91) ∷ [];
  globals = [];
  has_msg_send = false;
}

abbrev p : Value
p = argument (info 1 "p" (pointer int_type))

-- `*p`, inlined, and `x = *p + *p`
abbrev loaded : Value
loaded = instruction (info 2 "t" int_type) inlined (load none p)

abbrev sum : Instr
sum = binary BinaryOpcode.add loaded loaded

abbrev sum_info : Info
sum_info = info 3 "x" int_type

abbrev sum_instruction : Instruction
sum_instruction = record { info = sum_info; marks = marks; instr = sum }

abbrev store_instruction : Instruction
store_instruction = record {
  info = info 4 "" (primitive void);
  marks = marks;
  instr = store (argument (info 3 "x" int_type)) p;
}

abbrev branch_instruction : Instruction
branch_instruction = record { info = info 5 "" (primitive void); marks = marks; instr = branch }

abbrev first_block : Block
first_block = record {
  address = 100;
  instructions = sum_instruction ∷ store_instruction ∷ branch_instruction ∷ [];
  terminator = goes_to (101 ∷ 100 ∷ []);
}

-- A block that only branches.
abbrev second_block : Block
second_block = record {
  address = 101;
  instructions = branch_instruction ∷ [];
  terminator = goes_to (101 ∷ []);
}

visit-Visited_example :
    let (found, s) = visit sum_info marks sum emitter in Visited empty s.graph found
visit-Visited_example = visit-Visited sum_info marks sum emitter

ref_or_constant-Expression_example :
    let (node, s) = emit_ref_or_constant loaded emitter in Expression empty s.graph node
ref_or_constant-Expression_example = ref_or_constant-Expression loaded emitter

block-Joined_example :
    let ((front, back, last_order), s) = emit_block 80 1 first_block emitter in
    Joined 80 empty s.graph front back
block-Joined_example = block-Joined 80 1 first_block emitter

blocks-Bodies_example :
    let (emitted, s) = emit_blocks 80 1 (first_block ∷ second_block ∷ []) emitter in
    Bodies 80 empty s.graph (first_block ∷ second_block ∷ []) emitted
blocks-Bodies_example = blocks-Bodies 80 (first_block ∷ second_block ∷ []) 1 emitter

-- `int f(int *p)` with the local `x` and the two blocks
abbrev main_method : Method
main_method = record {
  demangled_full_name = "f";
  demangled_name = "f";
  subprogram = some (12, "f");
  is_declaration = false;
  function_type = function int_type (cons (pointer int_type) nil) false;
  return_type = int_type;
  arguments = info 1 "p" (pointer int_type) ∷ [];
  local_variables = info 3 "x" int_type ∷ [];
  module_globals = [];
  blocks = first_block ∷ second_block ∷ [];
}

abbrev start_emitter : Emitter
start_emitter = record emitter { locals = [] }

method-Whole_example :
    let (node, s) = emit_method main_method start_emitter in Whole main_method empty s.graph node
method-Whole_example = method-Whole main_method start_emitter

order-instructions_example :
    let ((nodes, last_order), s) = emit_instructions 1 first_block.instructions emitter in
    InOrder 1 s.graph nodes × (last_order ≡ 1 + length nodes)
order-instructions_example = order-instructions first_block.instructions 1 emitter

abbrev emitted_blocks : List Emitted
emitted_blocks =
    record { address = 100; front = 5; back = 9; terminator = goes_to (101 ∷ 100 ∷ []) }
    ∷ record { address = 101; front = 12; back = 14; terminator = returns }
    ∷ []

terminators-Linked_example :
    Linked empty
      (connect_terminators emitted_blocks 2 emitted_blocks empty)
      (all_leaving emitted_blocks 2 (get_entry empty) emitted_blocks)
    × Exactly emitted_blocks 2
        (get_entry empty)
        emitted_blocks
        (all_leaving emitted_blocks 2 (get_entry empty) emitted_blocks)
terminators-Linked_example = terminators-Linked emitted_blocks emitted_blocks 2 empty

abbrev with_code : Graph
with_code = set_properties 1 (code "first" ∷ []) (new_node call empty)

get_code-set_properties_example :
    get_code (set_properties 1 (code "second" ∷ []) with_code) 1 ≡ "first"
unfolding find_code new_node set_properties
get_code-set_properties_example =
    get_code-set_properties 1 1 (code "second" ∷ []) "first" with_code refl

-- `p(*p)` through the pointer `p`
indirect_call-code_example :
    let (node, s) =
      emit_cast_or_indirect sum_info marks p none (argument_then loaded no_argument) emitter in
    get_code s.graph node ≡ "indirect_call"
unfolding is_inline_assembly
indirect_call-code_example =
    indirect_call-code sum_info marks p (argument_then loaded no_argument) emitter refl

-- `struct list { int value; struct list *next; }`
abbrev list_struct : ℕ → Struct
list_struct zero = record {
  name = some "struct.list";
  body = some (int_type ∷ pointer (identified 0) ∷ []);
  is_packed = false;
}
list_struct (suc a) = no_struct a

abbrev list_types : Types
list_types = record { structs = list_struct; type_id = λ t. 13 }

list_IsTable : IsTable list_types 1
list_IsTable zero le = absurd (omega arith)
list_IsTable (suc a) le = refl

construct_type_vector-total_example :
    (w : Walk) × (construct_type_vector
        (size (pointer (identified 0)) + unseen list_types 1 [])
        list_types
        (start (pointer (identified 0)) [] [])
      ≡ some w)
    × (w.total_arity ≡ length w.result)
construct_type_vector-total_example =
    construct_type_vector-total list_types 1 (pointer (identified 0)) [] [] list_IsTable

-- An opaque struct with a name, after another one that is known.
abbrev opaque_types : Types
opaque_types = record {
  structs = λ a. record { name = some "struct.b.12"; body = none; is_packed = false };
  type_id = λ t. 13;
}

one_Numbered : Numbered (("a", 0) ∷ []) []
one_Numbered = record {
  named = (omega arith, omega arith, tt);
  unnamed = tt;
  named_distinct = (tt, tt);
  unnamed_distinct = tt;
  disjoint = (tt, tt);
}

construct_type_vector-Numbered_example :
    (w : Walk) × (construct_type_vector
        (size (identified 5) + unseen opaque_types 0 [])
        opaque_types
        (start (identified 5) (("a", 0) ∷ []) [])
      ≡ some w)
    × Numbered w.opaque_structs w.unnamed_structs
construct_type_vector-Numbered_example =
    construct_type_vector-Numbered opaque_types 0 (identified 5) (("a", 0) ∷ []) [] (λ a le. refl)
      one_Numbered

record_type-Recorded_example :
    let (name, s) = record_type (pointer int_type) "<global>" types in Recorded name types s
record_type-Recorded_example = record_type-Recorded (pointer int_type) "<global>" types

-- `%0 = type { %0* }`
abbrev recursive_types : TypeEmitter
recursive_types = record types {
  depth = 3;
  structs =
      λ a. record { name = none; body = some (pointer (identified 0) ∷ []); is_packed = false };
}

type_to_string-unnamed_example : (type_to_string (identified 0) recursive_types).0 ≡ nested 3
type_to_string-unnamed_example = type_to_string-unnamed 0 recursive_types refl refl
