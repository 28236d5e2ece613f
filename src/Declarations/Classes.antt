-- ===== src/Declarations/Classes.antt =====
-- Declarations of classes, and the bindings of their methods: emitObjCTypes and
-- emitObjCMethodBindings of lib/ProtoWriter/CPGTypeEmitter.cpp.
use llvm2cpg.Prelude.{
  ℕ, zero, suc, String, Bool, true, false, Option, none, some, List, [], ◌∷◌, ◌<>◌,
}
use llvm2cpg.Prelude.Chain.{◌>>=◌}
use llvm2cpg.Types.Naming.{lookup}
use llvm2cpg.Graph.{
  new_node, set_properties, connect, binding, binds, ref, name, signature, ast_parent_type,
  ast_parent_full_name, is_external, inherits_from_type_full_name,
}
use llvm2cpg.ObjC.{Methods, Hierarchy, propagate_subclass_methods}
use llvm2cpg.ObjC.{is_external as is_external_class}
use llvm2cpg.Declarations.{Declarations, emit_type, emit_type_decl, named_type_decl, set}

unfoldable pub emit_categories : List String → Declarations → Declarations
unfolding emit_type_decl emit_type
emit_categories [] s = s
emit_categories (c ∷ cs) s =
    let (node, s₁) = emit_type_decl c "<global>" s in emit_categories cs (emit_type c s₁)

-- The loop over the subclasses of a class: each is emitted, and inherits from it.
module _ (emit : String → Declarations → Option (ℕ × Declarations)) where
  unfoldable pub emit_subclasses : String → List String → Declarations → Option Declarations
  emit_subclasses base [] s = some s
  emit_subclasses base (c ∷ cs) s = emit c s >>= λ r.
      emit_subclasses base cs (set r.0 (inherits_from_type_full_name base ∷ []) r.1)

  unfoldable pub emit_roots : List String → Declarations → Option Declarations
  emit_roots [] s = some s
  emit_roots (c ∷ cs) s = emit c s >>= λ r. emit_roots cs r.1

-- The node of a class, with that of each class below it, to the depth of the fuel.
unfoldable pub emit_objc_type : ℕ → Hierarchy → String → Declarations → Option (ℕ × Declarations)
unfolding emit_type_decl emit_type emit_subclasses is_external_class
emit_objc_type zero h base s = none
emit_objc_type (suc fuel) h base s =
    let (node, s₁) = emit_type_decl base "<global>" s in
    let s₂ = set node (is_external (is_external_class base h) ∷ []) s₁ in
    emit_subclasses (emit_objc_type fuel h) base (h.subclasses base) (emit_type base s₂) >>= λ s₃.
    some (node, s₃)

unfoldable pub emit_objc_types : ℕ → Hierarchy → Declarations → Option Declarations
unfolding emit_categories emit_roots emit_objc_type
emit_objc_types fuel h s =
    emit_roots (emit_objc_type fuel h) h.root_classes (emit_categories h.categories s)

-- The METHOD nodes of functions: `at` throws where there is none.
abbrev pub EmittedMethods : Type 0
EmittedMethods = List (ℕ × ℕ)

-- The methods are named and placed under the declaration.
unfoldable pub attach_methods :
    EmittedMethods → String → Methods → Declarations → Option Declarations
unfolding lookup
attach_methods emitted parent [] s = some s
attach_methods emitted parent (m ∷ ms) s = lookup m.function emitted >>= λ node.
    attach_methods emitted parent ms
      (set node (name m.name ∷ ast_parent_type "TYPE_DECL" ∷ ast_parent_full_name parent ∷ []) s)

unfoldable pub attach_class :
    EmittedMethods → Hierarchy → String → Bool → Declarations → Option Declarations
unfolding attach_methods
attach_class emitted h c true s = some s
attach_class emitted h c false s =
    attach_methods emitted c (h.methods c) s
    >>= attach_methods emitted c (h.methods (h.metaclasses c))

unfoldable pub attach_classes :
    EmittedMethods → Hierarchy → List String → Declarations → Option Declarations
unfolding attach_class is_external_class
attach_classes emitted h [] s = some s
attach_classes emitted h (c ∷ cs) s =
    attach_class emitted h c (is_external_class c h) s >>= attach_classes emitted h cs

unfoldable pub attach_categories :
    EmittedMethods → Hierarchy → List String → Declarations → Option Declarations
unfolding attach_methods
attach_categories emitted h [] s = some s
attach_categories emitted h (c ∷ cs) s =
    attach_methods emitted c (h.methods c) s >>= attach_categories emitted h cs

-- One BINDING node, from a declaration to a method.
unfoldable pub bind : ℕ → String → ℕ → Declarations → Declarations
bind decl n method s =
    let node = s.graph.node_id in
    record s {
      graph = connect binds decl node (
          connect ref node method
            (set_properties node (name n ∷ signature "" ∷ []) (new_node binding s.graph)));
    }

-- For the class and for the pointer to it.
unfoldable pub bind_methods : EmittedMethods → ℕ → ℕ → Methods → Declarations → Option Declarations
unfolding bind lookup
bind_methods emitted decl pointer_decl [] s = some s
bind_methods emitted decl pointer_decl (m ∷ ms) s = lookup m.function emitted >>= λ node.
    bind_methods emitted decl pointer_decl ms
      (bind pointer_decl m.name node (bind decl m.name node s))

unfoldable pub bind_declared :
    EmittedMethods → String → Methods → ℕ → Declarations → Option Declarations
unfolding emit_type_decl bind_methods
bind_declared emitted c ms decl s =
    let (pointer_decl, s₁) = emit_type_decl (c <> "*") "<global>" s in
    bind_methods emitted decl pointer_decl ms s₁

unfoldable pub bind_named : EmittedMethods → String → Methods → Declarations → Option Declarations
unfolding named_type_decl bind_declared
bind_named emitted c ms s = named_type_decl c s >>= λ decl. bind_declared emitted c ms decl s

unfoldable pub bind_classes :
    EmittedMethods → Hierarchy → List String → Declarations → Option Declarations
unfolding bind_named
bind_classes emitted h [] s = some s
bind_classes emitted h (c ∷ cs) s =
    bind_named emitted c (h.methods c) s
    >>= bind_named emitted (h.metaclasses c) (h.methods (h.metaclasses c))
    >>= bind_classes emitted h cs

-- emitObjCMethodBindings, with the hierarchy before and after the propagation
unfoldable pub emit_objc_method_bindings :
    ℕ → EmittedMethods → Hierarchy → Declarations → Option Declarations
unfolding attach_classes attach_categories bind_classes propagate_subclass_methods
emit_objc_method_bindings fuel emitted h s =
    attach_classes emitted h h.classes s >>= attach_categories emitted h h.categories >>= λ s₁.
    propagate_subclass_methods fuel h >>= λ h₁. bind_classes emitted h₁ h₁.classes s₁
