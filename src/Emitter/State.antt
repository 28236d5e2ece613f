-- ===== src/Emitter/State.antt =====
-- The fields of CPGEmitter, its actions, and the smallest of its methods.
use llvm2cpg.Prelude.{
  ℕ, String, Bool, true, false, Option, none, some, List, [], ◌∷◌, ◌++◌, ◌==◌, if◌then◌else◌, ◌<>◌,
  join, map,
}
use llvm2cpg.Types.{Ty}
use llvm2cpg.Types.Naming.{TypeEmitter, record_type, lookup}
use llvm2cpg.Graph.{
  NodeType, Graph, Property, new_node, set_properties, set_entry, get_code, call, unknown, code,
  type_full_name, method_inst_full_name, method_full_name, signature, dispatch_type, line_number,
  column_number,
}

pub record Emitter : Type 0 where
  pub graph : Graph
  pub types : TypeEmitter
  pub namespace : String
  pub line : ℕ
  pub column : ℕ
  pub locals : List (ℕ × ℕ)
  pub globals : List ℕ
  pub has_msg_send : Bool

abbrev pub M {ℓ} : Type ℓ → Type ℓ
M A = Emitter → A × Emitter

infixl 5 ◌>>=◌ ◌>>◌
abbrev pub ◌>>=◌ {ℓ κ} : {A : Type ℓ} {B : Type κ} → M A → (A → M B) → M B
◌>>=◌ m f s = let (a, s₁) = m s in f a s₁

abbrev pub ◌>>◌ {ℓ} : {A B : Type ℓ} → M A → M B → M B
m >> n = m >>= λ _. n

abbrev pub pure {ℓ} : {A : Type ℓ} → A → M A
pure a s = (a, s)

abbrev pub gets {ℓ} : {A : Type ℓ} → (Emitter → A) → M A
gets f s = (f s, s)

abbrev pub modify : (Graph → Graph) → M (Unit {0})
modify f s = (tt, record s { graph = f s.graph })

abbrev pub create : NodeType → M ℕ
create t s = (s.graph.node_id, record s { graph = new_node t s.graph })

abbrev pub set : ℕ → List Property → M (Unit {0})
set node ps = modify (set_properties node ps)

abbrev pub code_of : ℕ → M String
code_of node = gets λ s. get_code s.graph node

unfoldable pub mem : ℕ → List ℕ → Bool
mem a [] = false
mem a (x ∷ xs) = if x == a then true else mem a xs

unfoldable pub is_global : ℕ → Emitter → Bool
unfolding mem
is_global address s = mem address s.globals

unfoldable pub is_local : ℕ → Emitter → Bool
unfolding lookup
is_local address s = elim (lookup address s.locals) [ some _ ↦ true | none ↦ false ]

-- The node of a local; a value that is no local has none.
unfoldable pub get_local : ℕ → Emitter → Option ℕ
unfolding lookup
get_local address s = lookup address s.locals

-- `locals.insert`, which keeps the entry that is there.
unfoldable pub insert_local : ℕ → ℕ → Emitter → Emitter
unfolding lookup
insert_local address node s = elim (lookup address s.locals) [
  | some _ ↦ s
  | none ↦ record s { locals = (address, node) ∷ s.locals }
]

unfoldable pub get_type_name : Ty → M String
get_type_name type s =
    let (text, types) = record_type type s.namespace s.types in (text, record s { types = types })

unfoldable pub line_properties : Emitter → List Property
line_properties s =
    (if s.line == 0 then [] else line_number s.line ∷ [])
    ++ (if s.column == 0 then [] else column_number s.column ∷ [])

unfoldable pub set_line_info : ℕ → M (Unit {0})
set_line_info node s = set node (line_properties s) s

-- `none` is an instruction with no position of its own, or one inlined from elsewhere.
unfoldable pub update_line_info : Option (ℕ × ℕ) → M (Unit {0})
update_line_info none s = (tt, record s { line = 0; column = 0 })
update_line_info (some (l, c)) s = (tt, record s { line = l; column = c })

unfoldable pub concat_call_arguments : List ℕ → M String
concat_call_arguments nodes s = (join ", " (map (get_code s.graph) nodes), s)

unfoldable pub pseudo_call : String → List ℕ → M String
unfolding concat_call_arguments
pseudo_call callee arguments = do
  text ← concat_call_arguments arguments
  pure (callee <> "(" <> text <> ")")

unfoldable pub emit_generic_op : (full_name text return_type operands : String) → M ℕ
unfolding set_line_info
emit_generic_op full_name text return_type operands = do
  node ← create call
  set node (
      Property.name full_name
      ∷ code text
      ∷ type_full_name return_type
      ∷ method_inst_full_name full_name
      ∷ method_full_name full_name
      ∷ signature operands
      ∷ dispatch_type "STATIC_DISPATCH"
      ∷ [])
  set_line_info node
  modify (set_entry node node)
  pure node

-- An unknown node with a code that is its own entry.
unfoldable pub emit_text : String → M ℕ
emit_text text = do
  node ← create unknown
  set node (code text ∷ [])
  modify (set_entry node node)
  pure node

unfoldable pub emit_noop : M ℕ
unfolding emit_text
emit_noop = emit_text "noop"

unfoldable pub emit_unhandled : M ℕ
unfolding emit_text
emit_unhandled = emit_text "unhandled"
