-- ===== src/Emitter/Constants.antt =====
-- Literals, identifiers and method references: emitConstant, emitInlineString, and the parts of
-- emitRefOrConstant that reach no operand.
use llvm2cpg.Prelude.{
  ℕ, ◌-◌, ◌/◌, ◌%◌, ◌^◌, String, Bool, true, false, Option, none, some, List, [], ◌∷◌, ◌==◌, leb,
  ◌||◌, if◌then◌else◌, ◌<>◌, to_string, get_elem?,
}
use llvm2cpg.Types.{Ty}
use llvm2cpg.Graph.{
  Property, code, type_full_name, method_inst_full_name, method_full_name, ref, literal, identifier,
  method_ref, connect,
}
use llvm2cpg.Values.{
  Info, Integer, CString, Constant, Literal, InlineStrings, FunctionInfo, constant_int,
  null_pointer, constant_fp, aggregate_zero, undef, metadata_as_value, inline_asm, data_array,
  struct_or_array, other_constant,
}
use llvm2cpg.Emitter.State.{
  Emitter, M, pure, gets, modify, create, set, ◌>>=◌, ◌>>◌, is_global, is_local, get_local,
  get_type_name, set_line_info,
}
use llvm2cpg.Emitter.Connections.{resolve_connections}

-- A number of one bit prints as a truth value; others are signed if their top bit is set.
unfoldable pub constant_int_to_string : Integer → String
constant_int_to_string c =
    if c.width == 1
    then (if c.value == 1 then "true" else "false")
    else if leb (2 ^ (c.width - 1)) c.value
    then "-" <> to_string (2 ^ c.width - c.value)
    else to_string c.value

hex_digit : ℕ → String
hex_digit d =
    if leb d 9
    then to_string d
    else if d == 10
    then "a"
    else if d == 11
    then "b"
    else if d == 12
    then "c"
    else if d == 13
    then "d"
    else if d == 14
    then "e"
    else "f"

hexadecimal : List ℕ → String
hexadecimal [] = ""
hexadecimal (b ∷ bs) = "0x" <> hex_digit (b / 16) <> hex_digit (b % 16) <> hexadecimal bs

c_string_text : CString → String
c_string_text c = if c.is_utf8 then c.text else hexadecimal c.bytes

unfoldable pub constant_text : Info → Constant → String
unfolding c_string_text hexadecimal hex_digit constant_int_to_string
constant_text i (constant_int c) = constant_int_to_string c
constant_text i null_pointer = "nullptr"
constant_text i (constant_fp text) = text
constant_text i aggregate_zero = "zero initialized"
constant_text i undef = "undef"
constant_text i metadata_as_value = "metadata " <> i.printed
constant_text i (inline_asm text) = text
constant_text i (data_array (some c)) = c_string_text c
constant_text i (data_array none) = i.printed
constant_text i struct_or_array = i.printed
constant_text i other_constant = i.printed

unfoldable pub emit_literal : Ty → String → M ℕ
emit_literal type text = do
  node ← create literal
  type_name ← get_type_name type
  set node (type_full_name type_name ∷ [])
  resolve_connections node []
  set_line_info node
  set node (code text ∷ [])
  pure node

unfoldable pub emit_constant : Literal → M ℕ
unfolding emit_literal constant_text
emit_constant l = emit_literal l.info.type (constant_text l.info l.constant)

-- A value that is neither local nor global and no constant of a known kind.
unfoldable pub emit_printed : Info → M ℕ
unfolding emit_constant
emit_printed i = emit_constant (record { info = i; constant = other_constant })

-- emitConstant(unsigned)
unfoldable pub emit_number : ℕ → M ℕ
emit_number c = do
  node ← create literal
  set node (type_full_name "i32" ∷ code (to_string c) ∷ [])
  resolve_connections node []
  set_line_info node
  pure node

unfoldable pub emit_method_ref : FunctionInfo → M ℕ
emit_method_ref f = do
  node ← create method_ref
  set node (
      code f.demangled_full_name
      ∷ method_inst_full_name f.demangled_full_name
      ∷ method_full_name f.demangled_full_name
      ∷ [])
  resolve_connections node []
  set_line_info node
  pure node

-- `none` is the null node: the operand is the null constant, or is not there.
unfoldable pub emit_string_operand : Option (Option Literal) → M (Option ℕ)
unfolding emit_constant
emit_string_operand (some (some l)) = do node ← emit_constant l; pure (some node)
emit_string_operand _ = pure none

unfoldable pub emit_inline_string : InlineStrings → ℕ → M (Option ℕ)
unfolding emit_string_operand
emit_inline_string operands i = emit_string_operand (get_elem? operands i)

connect_local : ℕ → Bool → Option ℕ → M (Unit {0})
connect_local node true local = pure tt
connect_local node false none = pure tt
connect_local node false (some local) = modify (connect ref node local)

unfoldable pub emit_identifier : Info → M ℕ
unfolding connect_local
emit_identifier i = do
  node ← create identifier
  type ← get_type_name i.type
  set node (Property.name i.name ∷ code i.name ∷ type_full_name type ∷ [])
  global ← gets (is_global i.address)
  local ← gets (get_local i.address)
  connect_local node global local
  resolve_connections node []
  set_line_info node
  pure node

-- A test of the emitter's state chooses between two actions.
abbrev pub if_state : (Emitter → Bool) → M ℕ → M ℕ → M ℕ
if_state test m n s = (if test s then m else n) s

unfoldable pub emit_named : Info → M ℕ → M ℕ
emit_named i otherwise =
    if_state (λ s. is_local i.address s || is_global i.address s) (emit_identifier i) otherwise
