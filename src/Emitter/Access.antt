-- ===== src/Emitter/Access.antt =====
-- Accesses into aggregates: emitGEP, emitGEPAccess, emitExtractValue, emitExtract. The emission of
-- operands is an argument; `getIndexedType` is LLVM's, and its answers come with the indexes.
use llvm2cpg.Prelude.{
  ℕ, String, Bool, true, false, Option, none, some, List, [], ◌∷◌, if◌then◌else◌, get_elem?,
}
use llvm2cpg.Types.{Ty, Struct, pointer, array, identified, literal_struct, to_list}
use llvm2cpg.Types.Naming.{get_struct_members}
use llvm2cpg.Graph.{code, canonical_name, field_identifier, set_entry}
use llvm2cpg.Values.{
  Info, Integer, Value, Indexes, argument, instruction, global_variable, global_alias, function,
  constant_expr, constant, constant_int, no_index, index,
}
use llvm2cpg.Emitter.State.{
  M, pure, gets, modify, create, set, ◌>>=◌, ◌>>◌, get_type_name, pseudo_call, emit_generic_op,
}
use llvm2cpg.Emitter.Connections.{resolve_connections}
use llvm2cpg.Emitter.Constants.{emit_number, constant_int_to_string}

unfoldable pub info_of : Value → Info
info_of (argument i) = i
info_of (instruction i m e) = i
info_of (global_variable i s init) = i
info_of (global_alias i) = i
info_of (function i f) = i
info_of (constant_expr i e) = i
info_of (constant l) = l.info

-- `cast<ConstantInt>(index)`. LLVM admits nothing else as the index of a struct.
unfoldable pub integer_of : Value → Integer
integer_of (constant l) = elim l.constant [
  | constant_int c ↦ c
  | _ ↦ record { width = 32; value = 0 }
]
integer_of _ = record { width = 32; value = 0 }

-- A struct type with a name, and its key in the table of structs.
unfoldable pub named_struct : (ℕ → Struct) → Ty → Option ℕ
named_struct structs (identified address) = elim (structs address).name [
  | some _ ↦ some address
  | none ↦ none
]
named_struct structs _ = none

unfoldable pub is_named : Option ℕ → Bool
is_named none = false
is_named (some _) = true

unfoldable pub field_name : Integer → List String → String
field_name c members = elim (get_elem? members c.value) [
  | some member ↦ member
  | none ↦ constant_int_to_string c
]

unfoldable pub emit_field_identifier : ℕ → Integer → M ℕ
unfolding field_name
emit_field_identifier struct c = do
  node ← create field_identifier
  modify (set_entry node node)
  members ← λ s.
      let (names, types) = get_struct_members struct s.types in (names, record s { types = types })
  let name = field_name c members
  set node (canonical_name name ∷ code name ∷ [])
  pure node

unfoldable pub emit_index : Option ℕ → Value → M ℕ → M ℕ
emit_index none v operand = operand
emit_index (some struct) v operand = emit_field_identifier struct (integer_of v)

unfoldable pub emit_gep_access : Ty → String → Bool → M ℕ
emit_gep_access type text member_access = do
  type_name ← get_type_name type
  node ←
      emit_generic_op
        (if member_access then "<operator>.getElementPtr" else "<operator>.indexAccess") text
        type_name "ANY (ANY)"
  resolve_connections node []

unfoldable pub is_no_index : Indexes → Bool
is_no_index no_index = true
is_no_index (index v t rest) = false

-- The first index: an element of the array that the pointer points into.
unfoldable pub emit_pointer_shift : Ty → Bool → M ℕ → M ℕ → M ℕ
emit_pointer_shift index_type last_index element index_operand = do
  element_node ← element
  index_node ← index_operand
  text ← pseudo_call "gep" (element_node ∷ index_node ∷ [])
  type_name ← get_type_name (if last_index then pointer index_type else index_type)
  node ← emit_generic_op "<operator>.pointerShift" text type_name "ANY (ANY)"
  resolve_connections node (element_node ∷ index_node ∷ [])

-- One round of the loop over the further indexes. `container` is the type before the index.
unfoldable pub emit_gep_step : (container : Ty) → Value → Ty → Bool → M ℕ → M ℕ → M ℕ
emit_gep_step container v index_type last_index access operand = do
  lhs ← access
  struct ← gets (λ s. named_struct s.types.structs container)
  rhs ← emit_index struct v operand
  node ←
      emit_gep_access (if last_index then pointer index_type else index_type)
        (info_of v).printed_bare (is_named struct)
  resolve_connections node (lhs ∷ rhs ∷ [])

-- nextIndexType. Past the elements, and at a type without any, the program aborts; the model
-- stays at the type.
unfoldable pub next_index_type : (ℕ → Struct) → Ty → ℕ → Ty
next_index_type structs (identified address) i = elim (structs address).body [
  | none ↦ identified address
  | some elements ↦ elim (get_elem? elements i) [ some t ↦ t | none ↦ identified address ]
]
next_index_type structs (literal_struct address elements packed) i =
    elim (get_elem? (to_list elements) i) [
      | some t ↦ t
      | none ↦ literal_struct address elements packed
    ]
next_index_type structs (array n t) i = t
next_index_type structs t i = t

unfoldable pub emit_extract : Ty → M ℕ
emit_extract type = do
  text ← pseudo_call "extractValue" []
  type_name ← get_type_name type
  node ← emit_generic_op "<operator>.indexAccess" text type_name "ANY (ANY)"
  resolve_connections node []

unfoldable pub emit_extract_step : Ty → ℕ → M ℕ → M ℕ
emit_extract_step type i operand = do
  aggregate ← operand
  number ← emit_number i
  node ← emit_extract type
  resolve_connections node (aggregate ∷ number ∷ [])

unfoldable pub emit_extract_steps : (ℕ → Struct) → Ty → List ℕ → M ℕ → M ℕ
emit_extract_steps structs type [] aggregate = aggregate
emit_extract_steps structs type (i ∷ rest) aggregate =
    let next = next_index_type structs type i in
    emit_extract_steps structs next rest (emit_extract_step next i aggregate)

-- `type` is that of the aggregate. The table of structs does not change.
unfoldable pub emit_extract_value : Ty → List ℕ → M ℕ → M ℕ
unfolding emit_extract_steps
emit_extract_value type indices aggregate s =
    emit_extract_steps s.types.structs type indices aggregate s
