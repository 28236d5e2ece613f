-- ===== src/Examples/ObjC.antt =====
-- A class under an external root, with a subclass that overrides one of its two methods.
use llvm2cpg.Prelude.{
  ℕ, ◌≡◌, refl, String, true, false, some, none, [], ◌∷◌, arith, ◌≤◌, ◌<◌, if◌then◌else◌,
}
use text.Mathlib.Text.{◌==◌ as str_eq}
use llvm2cpg.Prelude.Each.{In}
use llvm2cpg.ObjC.{
  Method, Hierarchy, CategoryDefinition, construct_hierarchy, initial, merged,
  propagate_subclass_methods,
}
use llvm2cpg.ObjC.Merged.{find_function, last_function, or_else, merged-override}
use llvm2cpg.Types.Naming.{TypeEmitter, lookup_text}
use mathlib.Core.Option.{none-ne-some}
use llvm2cpg.Graph.{empty}
use llvm2cpg.Declarations.{Declarations, named_type_decl}
use llvm2cpg.Declarations.Unique.{HasDecls}
use llvm2cpg.Declarations.Classes.{emit_objc_types}
use llvm2cpg.Declarations.Bindings.{emit_objc_types-declared}
use llvm2cpg.ObjC.Inherited.{IsRanked, Inherits, Below, propagate-Inherits}

abbrev method : String → ℕ → Method
method n f = record { name = n; function = f }

abbrev hierarchy : Hierarchy
hierarchy = record initial {
  root_classes = "NSObject" ∷ [];
  classes = "A" ∷ "B" ∷ [];
  defined_classes = "A" ∷ "B" ∷ [];
  subclasses = λ c. if str_eq c "NSObject" then "A" ∷ [] else if str_eq c "A" then "B" ∷ [] else [];
  methods = λ c.
      if str_eq c "A"
      then method "run" 1 ∷ method "stop" 2 ∷ []
      else if str_eq c "B"
      then method "run" 3 ∷ []
      else [];
}

merged-override_example :
    (find_function "run" ((merged "A" "B" hierarchy).methods "B")
      ≡ or_else
          (last_function "run" (hierarchy.methods "B"))
          (last_function "run" (hierarchy.methods "A")))
    × ((c : String)
        → str_eq c "B" ≡ false
        → (merged "A" "B" hierarchy).methods c ≡ hierarchy.methods c)
merged-override_example = merged-override "A" "B" "run" hierarchy

abbrev rank : String → ℕ
rank c = if str_eq c "NSObject" then 2 else if str_eq c "A" then 1 else 0

hierarchy-IsRanked : IsRanked rank hierarchy.subclasses
hierarchy-IsRanked c = ground arith

rank_bound : (c : String) → rank c ≤ 2
rank_bound c = ground arith

propagate-Inherits_example :
    (h' : Hierarchy) × (propagate_subclass_methods 2 hierarchy ≡ some h')
    × ((r u v : String)
        → In r hierarchy.root_classes
        → Below hierarchy.subclasses r u
        → In v (hierarchy.subclasses u)
        → Inherits h' u v)
propagate-Inherits_example = propagate-Inherits rank 2 hierarchy hierarchy-IsRanked rank_bound

-- A category with an instance method and a class method of the same name keeps the first only.
abbrev category : CategoryDefinition
category = record {
  name = "Extra";
  class_name = "A";
  metaclass_name = "A$";
  is_class_external = true;
  instance_methods = method "copy" 1 ∷ [];
  class_methods = method "copy" 2 ∷ [];
}

category_methods :
    (construct_hierarchy (record { classes = []; categories = category ∷ [] } ∷ []) initial).methods
      "A(Extra)"
    ≡ method "copy" 1 ∷ []
unfolding construct_hierarchy
category_methods = refl

abbrev types : TypeEmitter
types = record {
  depth = 1;
  structs = λ a. record { name = none; body = none; is_packed = false };
  print_type = λ t. "i32";
  canonical_names = λ a. "";
  canonical_opaque_names = [];
  struct_member_names = [];
  recorded_types = [];
}

abbrev declarations : Declarations
declarations = record { types = types; graph = empty; named_type_decls = []; type_aliases = [] }

declarations-HasDecls : HasDecls declarations
unfolding lookup_text
declarations-HasDecls = record {
  sound = λ t k look. absurd (none-ne-some k look);
  complete = λ k lt is. absurd (ground (arith, is));
}

rank_below : (c : String) → rank c < 3
rank_below c = ground arith

emit_objc_types-declared_example :
    (s : Declarations) × (emit_objc_types 3 hierarchy declarations ≡ some s)
    × ((r c : String)
        → In r hierarchy.root_classes
        → Below hierarchy.subclasses r c
        → (k : ℕ) × (named_type_decl c s ≡ some k))
    × ((c : String) → In c hierarchy.categories → (k : ℕ) × (named_type_decl c s ≡ some k))
    × HasDecls s
emit_objc_types-declared_example =
    emit_objc_types-declared rank 3 hierarchy declarations hierarchy-IsRanked rank_below
      declarations-HasDecls
