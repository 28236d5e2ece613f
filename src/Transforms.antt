-- ===== src/Transforms.antt =====
-- inlineGlobalStrings of lib/Transforms/Transforms.cpp, whose marks the emitter reads in the place
-- of operands. Values are known by numbers.
pub mod Inlined
pub mod Marked
pub mod Strings
use llvm2cpg.Prelude.{
  ℕ, zero, suc, String, Bool, true, false, ◌&&◌, ◌||◌, not, Option, none, some, List, [], ◌∷◌, ◌++◌,
  ◌==◌, if◌then◌else◌, length, get_elem?, map,
}
use text.Mathlib.Text.{◌==◌ as str_eq}
use Prim.Native.String
use llvm2cpg.Prelude.Chain.{◌>>=◌}
use llvm2cpg.Types.Naming.{lookup}

pub data ExpressionOpcode : Type 0 where
  get_element_ptr bitcast other_cast other_expression : ExpressionOpcode

pub data InstructionKind : Type 0 where
  load store call other_instruction : InstructionKind

-- A constant array of data, and whether it is a C string; constants and instructions with
-- their operands.
pub data Value : Type 0 where
  data_array : Bool → Value
  structure : List ℕ → Value
  expression : ExpressionOpcode → List ℕ → Value
  instruction : InstructionKind → List ℕ → Value
  null_value other_value : Value

pub record GlobalVariable : Type 0 where
  pub value : ℕ
  pub name : Option String
  pub initializer : Option ℕ

pub record StructType : Type 0 where
  pub address : ℕ
  pub name : Option String
  pub is_opaque : Bool

-- The type that a value points to is asked for by the address of a struct: none for another type.
pub record Bitcode : Type 0 where
  pub struct_types : List StructType
  pub globals : List GlobalVariable
  pub values : ℕ → Value
  pub users : ℕ → List ℕ
  pub pointer_elements : ℕ → Option ℕ
  pub initializers : ℕ → Option ℕ

abbrev starts_with : String → String → Bool
starts_with prefix s = str_eq (String.slice s 0 (String.len prefix)) prefix

abbrev named : String → Option String → Bool
named prefix none = false
named prefix (some s) = starts_with prefix s

unfoldable pub find_objc_string_tag_types : List StructType → List ℕ
find_objc_string_tag_types [] = []
find_objc_string_tag_types (t ∷ ts) =
    let rest = find_objc_string_tag_types ts in
    if named "struct.__NSConstantString_tag" t.name && not t.is_opaque
    then t.address ∷ rest
    else rest

abbrev is_one_of : List ℕ → ℕ → Bool
is_one_of [] a = false
is_one_of (t ∷ ts) a = (t == a) || is_one_of ts a

abbrev points_to : List ℕ → Option ℕ → Bool
points_to objc_types none = false
points_to objc_types (some t) = is_one_of objc_types t

abbrev pub operands : Value → List ℕ
operands (data_array b) = []
operands (structure vs) = vs
operands (expression opcode vs) = vs
operands (instruction kind vs) = vs
operands null_value = []
operands other_value = []

abbrev pub is_null : Value → Bool
is_null null_value = true
is_null _ = false

-- An operand that the list lacks is taken not to be null.
abbrev pub is_null_at : (ℕ → Value) → Option ℕ → Bool
is_null_at values none = false
is_null_at values (some v) = is_null (values v)

unfoldable pub is_inlineable_const_gep : (ℕ → Value) → Value → Bool
is_inlineable_const_gep values (expression get_element_ptr vs) =
    is_null_at values (get_elem? vs 1) && is_null_at values (get_elem? vs 2)
is_inlineable_const_gep values _ = false

unfoldable pub is_inlineable_const_bitcast : Value → Bool
is_inlineable_const_bitcast (expression bitcast vs) = true
is_inlineable_const_bitcast _ = false

unfoldable pub is_inlineable_string_user_instruction : Value → Bool
is_inlineable_string_user_instruction (instruction load vs) = true
is_inlineable_string_user_instruction (instruction store vs) = true
is_inlineable_string_user_instruction (instruction call vs) = true
is_inlineable_string_user_instruction _ = false

unfoldable pub get_gep_pointer : (ℕ → Value) → ℕ → Option ℕ
unfolding is_inlineable_const_gep
get_gep_pointer values v =
    if is_inlineable_const_gep values (values v) then get_elem? (operands (values v)) 0 else none

-- The third of the four members of the tag
unfoldable pub string_of_tag : (ℕ → Value) → Value → Option ℕ
unfolding get_gep_pointer
string_of_tag values (structure (a ∷ b ∷ c ∷ d ∷ [])) = get_gep_pointer values c
string_of_tag values _ = none

unfoldable pub get_string_ref : (ℕ → Value) → Option ℕ → Option ℕ
unfolding string_of_tag
get_string_ref values none = none
get_string_ref values (some init) = string_of_tag values (values init)

-- The strings of globals, the latest first
abbrev pub Inlines : Type 0
Inlines = List (ℕ × ℕ)

abbrev is_cast_of_tag : Bitcode → List ℕ → Value → Bool
is_cast_of_tag m objc_types (expression bitcast (v ∷ vs)) =
    points_to objc_types (m.pointer_elements v)
is_cast_of_tag m objc_types (expression other_cast (v ∷ vs)) =
    points_to objc_types (m.pointer_elements v)
is_cast_of_tag m objc_types _ = false

-- Whether the string of the global is to be looked for
abbrev pub is_candidate : Bitcode → List ℕ → GlobalVariable → Value → Bool
is_candidate m objc_types g init =
    points_to objc_types (m.pointer_elements g.value)
    || (named "OBJC_SELECTOR_REFERENCES_" g.name || is_cast_of_tag m objc_types init)

abbrev pub classify :
    Bitcode
    → List ℕ
    → GlobalVariable
    → ℕ
    → Value
    → Inlines × List GlobalVariable
    → Inlines × List GlobalVariable
classify m objc_types g init (data_array true) (inlines, found) = ((g.value, init) ∷ inlines, found)
classify m objc_types g init (data_array false) r = r
classify m objc_types g init v (inlines, found) =
    if is_candidate m objc_types g v then (inlines, found ++ (g ∷ [])) else (inlines, found)

abbrev pub classify_global :
    Bitcode
    → List ℕ
    → GlobalVariable
    → Option ℕ
    → Inlines × List GlobalVariable
    → Inlines × List GlobalVariable
classify_global m objc_types g none r = r
classify_global m objc_types g (some init) r = classify m objc_types g init (m.values init) r

-- The globals that are strings, and the others that may be inlined, in order.
unfoldable pub classify_globals :
    Bitcode
    → List ℕ
    → List GlobalVariable
    → Inlines × List GlobalVariable
    → Inlines × List GlobalVariable
classify_globals m objc_types [] r = r
classify_globals m objc_types (g ∷ gs) r =
    classify_globals m objc_types gs (classify_global m objc_types g g.initializer r)

abbrev or_else : Option ℕ → Option ℕ → Option ℕ
or_else none other = other
or_else (some v) other = some v

-- What the initializer, a constant expression, refers to: a global of its own initializer
abbrev string_of_expression : Bitcode → Value → Option ℕ → Option ℕ
string_of_expression m (expression opcode []) ref = none
string_of_expression m (expression opcode (v ∷ vs)) ref = get_string_ref m.values (m.initializers v)
string_of_expression m _ ref = ref

unfoldable pub string_ref : Bitcode → ℕ → Option ℕ
unfolding get_string_ref get_gep_pointer
string_ref m init =
    or_else (string_of_expression m (m.values init) (get_string_ref m.values (some init)))
      (get_gep_pointer m.values init)

abbrev pub inline_found : ℕ → Option ℕ → Inlines → Inlines
inline_found g none inlines = inlines
inline_found g (some c) inlines = (g, c) ∷ inlines

abbrev pub inline_candidate : Bitcode → GlobalVariable → Inlines → Inlines
inline_candidate m g inlines =
    inline_found g.value (g.initializer >>= string_ref m >>= λ ref. lookup ref inlines) inlines

unfoldable pub inline_candidates : Bitcode → List GlobalVariable → Inlines → Inlines
unfolding string_ref lookup
inline_candidates m [] inlines = inlines
inline_candidates m (g ∷ gs) inlines = inline_candidates m gs (inline_candidate m g inlines)

unfoldable pub find_inlines : Bitcode → Inlines
unfolding find_objc_string_tag_types classify_globals inline_candidates
find_inlines m =
    let (inlines, candidates) =
      classify_globals m (find_objc_string_tag_types m.struct_types) m.globals ([], []) in
    inline_candidates m candidates inlines

-- For an instruction the strings of its operands
abbrev pub InlineInstructions : Type 0
InlineInstructions = List (ℕ × Inlines)

unfoldable pub put : ℕ → ℕ → ℕ → InlineInstructions → InlineInstructions
put i operand init [] = (i, (operand, init) ∷ []) ∷ []
put i operand init ((j, strings) ∷ found) =
    let rest = put i operand init found in
    if j == i then (j, (operand, init) ∷ strings) ∷ found else (j, strings) ∷ rest

abbrev pub put_user : Bitcode → ℕ → ℕ → ℕ → InlineInstructions → InlineInstructions
put_user m operand init u found =
    if is_inlineable_string_user_instruction (m.values u) then put u operand init found else found

-- The users of a constant expression
unfoldable pub put_users : Bitcode → ℕ → ℕ → List ℕ → InlineInstructions → InlineInstructions
unfolding put is_inlineable_string_user_instruction
put_users m operand init [] found = found
put_users m operand init (u ∷ us) found =
    put_users m operand init us (put_user m operand init u found)

abbrev pub inline_user : Bitcode → ℕ → ℕ → ℕ → InlineInstructions → InlineInstructions
inline_user m g init u found =
    if is_inlineable_const_gep m.values (m.values u)
    then put_users m u init (m.users u) found
    else if is_inlineable_const_bitcast (m.values u)
    then put_users m u init (m.users u) found
    else put_user m g init u found

unfoldable pub inline_users : Bitcode → ℕ → ℕ → List ℕ → InlineInstructions → InlineInstructions
unfolding put_users put is_inlineable_const_gep is_inlineable_const_bitcast
    is_inlineable_string_user_instruction
inline_users m g init [] found = found
inline_users m g init (u ∷ us) found = inline_users m g init us (inline_user m g init u found)

unfoldable pub find_instructions : Bitcode → Inlines → InlineInstructions → InlineInstructions
unfolding inline_users
find_instructions m [] found = found
find_instructions m ((g, init) ∷ inlines) found =
    find_instructions m inlines (inline_users m g init (m.users g) found)

-- One entry for each operand: none stands for the null constant.
unfoldable pub strings_of_operands : Inlines → List ℕ → List (Option ℕ)
unfolding lookup
strings_of_operands strings [] = []
strings_of_operands strings (v ∷ vs) = lookup v strings ∷ strings_of_operands strings vs

unfoldable pub payloads : Bitcode → InlineInstructions → List (ℕ × List (Option ℕ))
unfolding strings_of_operands
payloads m [] = []
payloads m ((i, strings) ∷ found) =
    (i, strings_of_operands strings (operands (m.values i))) ∷ payloads m found

-- The metadata shiftleft.inline_string_literal of globals and of instructions
pub record Metadata : Type 0 where
  pub global_strings : Inlines
  pub instruction_strings : List (ℕ × List (Option ℕ))

unfoldable pub inline_global_strings : Bool → Bitcode → Metadata
unfolding find_inlines find_instructions payloads
inline_global_strings false m = record { global_strings = []; instruction_strings = [] }
inline_global_strings true m =
    let inlines = find_inlines m in
    record {
      global_strings = inlines;
      instruction_strings = payloads m (find_instructions m inlines []);
    }
