-- ===== src/Declarations.antt =====
-- TYPE and TYPE_DECL nodes: the methods of lib/ProtoWriter/CPGTypeEmitter.cpp that make nodes for
-- the names of types, and emitStructMembers with the debug information that it reads.
pub mod Unique
pub mod Members
pub mod Debug
pub mod Worklist
pub mod Reachable
pub mod Classes
pub mod Bindings
use llvm2cpg.Prelude.{
  ℕ, zero, suc, String, Bool, true, false, Option, none, some, List, [], ◌∷◌, ◌++◌, length,
  get_elem?, to_string, if◌then◌else◌,
}
use text.Mathlib.Text.{◌==◌ as str_eq}
use llvm2cpg.Types.{Ty, Struct, identified}
use llvm2cpg.Types.Naming.{TypeEmitter, lookup_text, type_to_string, get_struct_members}
use llvm2cpg.Graph.{
  Graph, Property, new_node, set_properties, connect, type_decl, type, member, ast, name, full_name,
  type_decl_full_name, is_external, order, ast_parent_type, ast_parent_full_name, code,
  type_full_name, alias_type_full_name,
}

-- The fields of CPGTypeEmitter that make nodes, with those that name types.
pub record Declarations : Type 0 where
  pub types : TypeEmitter
  pub graph : Graph
  pub named_type_decls : List (String × ℕ)
  pub type_aliases : List (String × List String)

-- emitType
unfoldable pub emit_type : String → Declarations → Declarations
emit_type t s = record s {
  graph =
      set_properties s.graph.node_id (name t ∷ full_name t ∷ type_decl_full_name t ∷ [])
        (new_node type s.graph);
}

unfoldable pub declare : String → String → Declarations → ℕ × Declarations
declare t location s = (
  s.graph.node_id,
  record s {
    graph =
        set_properties s.graph.node_id
          (name t
            ∷ full_name t
            ∷ is_external false
            ∷ order 0
            ∷ ast_parent_type "NAMESPACE_BLOCK"
            ∷ ast_parent_full_name location
            ∷ [])
          (new_node type_decl s.graph);
    named_type_decls = (t, s.graph.node_id) ∷ s.named_type_decls;
  },
)

unfoldable pub emit_found_decl : String → String → Option ℕ → Declarations → ℕ × Declarations
unfolding declare
emit_found_decl t location (some node) s = (node, s)
emit_found_decl t location none s = declare t location s

-- emitTypeDecl
unfoldable pub emit_type_decl : String → String → Declarations → ℕ × Declarations
unfolding emit_found_decl lookup_text
emit_type_decl t location s = emit_found_decl t location (lookup_text t s.named_type_decls) s

-- namedTypeDecl: `at` throws where there is none.
unfoldable pub named_type_decl : String → Declarations → Option ℕ
unfolding lookup_text
named_type_decl t s = lookup_text t s.named_type_decls

unfoldable pub emit_names : List (String × String) → Declarations → Declarations
unfolding emit_type emit_type_decl
emit_names [] s = s
emit_names ((t, location) ∷ rest) s =
    let (node, s₁) = emit_type_decl t location (emit_type t s) in emit_names rest s₁

-- emitRecordedTypes
unfoldable pub emit_recorded_types : Declarations → Declarations
unfolding emit_names
emit_recorded_types s = emit_names s.types.recorded_types s

abbrev pub set : ℕ → List Property → Declarations → Declarations
set node ps s = record s { graph = set_properties node ps s.graph }

-- The loop over the aliases of a struct.
unfoldable pub emit_aliases : String → List String → Declarations → Declarations
unfolding emit_type_decl emit_type
emit_aliases canonical [] s = s
emit_aliases canonical (alias ∷ rest) s =
    let (decl, s₁) = emit_type_decl alias "<global>" s in
    emit_aliases canonical rest
      (emit_type alias (set decl (alias_type_full_name canonical ∷ []) s₁))

-- The name from the debug information, or the position.
abbrev pub member_name : List String → ℕ → String
member_name names i = elim (get_elem? names i) [ some n ↦ n | none ↦ to_string i ]

abbrev pub naming : Ty → Declarations → String × Declarations
naming t s = let (n, types) = type_to_string t s.types in (n, record s { types = types })

unfoldable pub emit_member : ℕ → List String → ℕ → String → Declarations → Declarations
emit_member decl names i t s =
    let node = s.graph.node_id in
    let n = member_name names i in
    record s {
      graph = connect ast decl node (
          set_properties node (name n ∷ code n ∷ type_full_name t ∷ order i ∷ [])
            (new_node member s.graph));
    }

-- The loop over the elements, from the element `i` on.
unfoldable pub emit_members : ℕ → List String → ℕ → List Ty → Declarations → Declarations
unfolding emit_member emit_type_decl emit_type type_to_string
emit_members decl names i [] s = s
emit_members decl names i (t ∷ ts) s =
    let (n, s₁) = naming t s in
    let (ignored, s₂) = emit_type_decl n "<global>" s₁ in
    emit_members decl names (suc i) ts (emit_member decl names i n (emit_type n s₂))

unfoldable pub aliases_of : String → Declarations → List String
unfolding lookup_text
aliases_of canonical s = elim (lookup_text canonical s.type_aliases) [ some l ↦ l | none ↦ [] ]

unfoldable pub emit_struct : ℕ → String → List Ty → Declarations → Declarations
unfolding emit_aliases emit_type_decl emit_type emit_members aliases_of get_struct_members
emit_struct address canonical elements s =
    let s₁ = emit_aliases canonical (aliases_of canonical s) s in
    let (decl, s₂) = emit_type_decl canonical "<global>" s₁ in
    let s₃ = emit_type canonical s₂ in
    let (names, types) = get_struct_members address s₃.types in
    emit_members decl names 0 elements (record s₃ { types = types })

unfoldable pub member_of : String → List String → Bool
member_of t [] = false
member_of t (u ∷ us) = if str_eq u t then true else member_of t us

-- A struct whose canonical name was emitted before is passed over.
unfoldable pub emit_unless :
    ℕ → String → List Ty → Bool → List String → Declarations → List String × Declarations
unfolding emit_struct
emit_unless address canonical elements true emitted s = (emitted, s)
emit_unless address canonical elements false emitted s =
    (canonical ∷ emitted, emit_struct address canonical elements s)

unfoldable pub emit_named_struct :
    ℕ → Option String → Option (List Ty) → List String → Declarations → List String × Declarations
unfolding emit_unless member_of type_to_string
emit_named_struct address none body emitted s = (emitted, s)
emit_named_struct address (some n) none emitted s = (emitted, s)
emit_named_struct address (some n) (some elements) emitted s =
    let (canonical, s₁) = naming (identified address) s in
    emit_unless address canonical elements (member_of canonical emitted) emitted s₁

-- emitStructMembers after recordStructInformation, over the identified structs of a module
unfoldable pub emit_structs : List ℕ → List String → Declarations → List String × Declarations
unfolding emit_named_struct
emit_structs [] emitted s = (emitted, s)
emit_structs (address ∷ rest) emitted s =
    let struct = s.types.structs address in
    let (emitted₁, s₁) = emit_named_struct address struct.name struct.body emitted s in
    emit_structs rest emitted₁ s₁
