-- ===== src/ObjC.antt =====
-- The classes and categories of Objective-C: lib/CPG/ObjCTypeHierarchy.cpp. What the traversal of a
-- module finds (lib/Traversals/ObjCTraversal.cpp) is data of the module.
pub mod Merged
pub mod Inherited
use llvm2cpg.Prelude.{
  ℕ, zero, suc, String, Bool, true, false, not, Option, none, some, List, [], ◌∷◌, ◌<>◌,
  if◌then◌else◌,
}
use text.Mathlib.Text.{◌==◌ as str_eq}

-- ObjCMethod: two methods of one name are equal, whatever their functions are.
pub record Method : Type 0 where
  pub name : String
  pub function : ℕ

abbrev pub Methods : Type 0
Methods = List Method

-- A class as others refer to it.
pub record ClassReference : Type 0 where
  pub name : String
  pub is_external : Bool

-- A class of the module, with its metaclass and the superclasses of both.
pub record ClassDefinition : Type 0 where
  pub name : String
  pub metaclass : String
  pub superclass : Option ClassReference
  pub meta_superclass : Option ClassReference
  pub methods : Methods
  pub metaclass_methods : Methods

pub record CategoryDefinition : Type 0 where
  pub name : String
  pub class_name : String
  pub metaclass_name : String
  pub is_class_external : Bool
  pub instance_methods : Methods
  pub class_methods : Methods

pub record ObjcModule : Type 0 where
  pub classes : List ClassDefinition
  pub categories : List CategoryDefinition

-- Maps are functions: a missing key has the empty text, the empty list or no methods.
pub record Hierarchy : Type 0 where
  pub root_classes : List String
  pub classes : List String
  pub categories : List String
  pub defined_classes : List String
  pub metaclasses : String → String
  pub subclasses : String → List String
  pub methods : String → Methods

abbrev pub initial : Hierarchy
initial = record {
  root_classes = [];
  classes = [];
  categories = [];
  defined_classes = [];
  metaclasses = λ c. "";
  subclasses = λ c. [];
  methods = λ c. [];
}

unfoldable pub contains : String → List String → Bool
contains t [] = false
contains t (u ∷ us) = if str_eq u t then true else contains t us

-- insert of a set
unfoldable pub insert : String → List String → List String
unfolding contains
insert t l = if contains t l then l else t ∷ l

unfoldable pub has_method : String → Methods → Bool
has_method n [] = false
has_method n (m ∷ ms) = if str_eq m.name n then true else has_method n ms

-- A method of a name that is there is not inserted.
unfoldable pub insert_method : Method → Methods → Methods
unfolding has_method
insert_method m ms = if has_method m.name ms then ms else m ∷ ms

unfoldable pub insert_methods : Methods → Methods → Methods
unfolding insert_method
insert_methods [] ms = ms
insert_methods (m ∷ rest) ms = insert_methods rest (insert_method m ms)

abbrev pub put_at {ℓ} : {A : Type ℓ} → String → A → (String → A) → String → A
put_at k v f j = if str_eq j k then v else f j

abbrev pub add_methods : String → Methods → Hierarchy → Hierarchy
add_methods c ms h = record h { methods = put_at c (insert_methods ms (h.methods c)) h.methods }

abbrev pub set_metaclass : String → String → Hierarchy → Hierarchy
set_metaclass c m h = record h { metaclasses = put_at c m h.metaclasses }

abbrev pub add_root : String → Hierarchy → Hierarchy
add_root c h = record h { root_classes = insert c h.root_classes }

abbrev pub add_root_if : Bool → String → Hierarchy → Hierarchy
add_root_if true c h = add_root c h
add_root_if false c h = h

abbrev pub add_subclass : String → String → Hierarchy → Hierarchy
add_subclass base derived h = record h {
  subclasses = put_at base (insert derived (h.subclasses base)) h.subclasses;
}

abbrev pub define : String → Hierarchy → Hierarchy
define c h = record h { defined_classes = insert c h.defined_classes }

abbrev pub add_class : String → Hierarchy → Hierarchy
add_class c h = record h { classes = insert c h.classes }

-- The two superclasses, where both are known, and roots otherwise.
unfoldable pub add_superclasses :
    ClassDefinition → Option ClassReference → Option ClassReference → Hierarchy → Hierarchy
unfolding insert
add_superclasses c (some super) (some meta) h = add_root_if meta.is_external meta.name (
    add_root_if super.is_external super.name (
      add_subclass meta.name c.metaclass
        (add_subclass super.name c.name (set_metaclass super.name meta.name h))))
add_superclasses c none meta h = add_root c.metaclass (add_root c.name h)
add_superclasses c (some super) none h = add_root c.metaclass (add_root c.name h)

unfoldable pub add_superclass : Option ClassReference → Hierarchy → Hierarchy
unfolding insert
add_superclass none h = h
add_superclass (some super) h = add_class super.name h

-- One class of the worklist.
unfoldable pub construct_class : ClassDefinition → Hierarchy → Hierarchy
unfolding add_superclasses add_superclass insert insert_methods
construct_class c h =
    let h₁ =
      add_superclasses c c.superclass c.meta_superclass (set_metaclass c.name c.metaclass h) in
    let h₂ = add_class c.name (define c.metaclass (define c.name h₁)) in
    let h₃ = add_superclass c.superclass h₂ in
    add_methods c.metaclass c.metaclass_methods (add_methods c.name c.methods h₃)

abbrev pub category_name : CategoryDefinition → String
category_name c = c.class_name <> "(" <> c.name <> ")"

unfoldable pub add_external : Bool → CategoryDefinition → Hierarchy → Hierarchy
unfolding insert
add_external false c h = h
add_external true c h =
    set_metaclass c.class_name c.metaclass_name
      (add_root c.metaclass_name (add_root c.class_name h))

unfoldable pub construct_category : CategoryDefinition → Hierarchy → Hierarchy
unfolding add_external insert insert_methods
construct_category c h =
    let h₁ = add_external c.is_class_external c (add_class c.class_name h) in
    let h₂ = record h₁ { categories = insert (category_name c) h₁.categories } in
    let h₃ =
      add_methods (category_name c) c.instance_methods
        (add_methods c.class_name c.instance_methods h₂) in
    add_methods (category_name c) c.class_methods (add_methods c.metaclass_name c.class_methods h₃)

unfoldable pub construct_classes : List ClassDefinition → Hierarchy → Hierarchy
unfolding construct_class
construct_classes [] h = h
construct_classes (c ∷ cs) h = construct_classes cs (construct_class c h)

unfoldable pub construct_categories : List CategoryDefinition → Hierarchy → Hierarchy
unfolding construct_category
construct_categories [] h = h
construct_categories (c ∷ cs) h = construct_categories cs (construct_category c h)

-- constructHierarchy
unfoldable pub construct_hierarchy : List ObjcModule → Hierarchy → Hierarchy
unfolding construct_classes construct_categories
construct_hierarchy [] h = h
construct_hierarchy (m ∷ ms) h =
    construct_hierarchy ms (construct_categories m.categories (construct_classes m.classes h))

-- methods[method.name] = method
unfoldable pub assign : Method → Methods → Methods
assign m [] = m ∷ []
assign m (k ∷ ks) = let rest = assign m ks in if str_eq k.name m.name then m ∷ ks else k ∷ rest

unfoldable pub assign_all : Methods → Methods → Methods
unfolding assign
assign_all [] ms = ms
assign_all (m ∷ rest) ms = assign_all rest (assign m ms)

-- The methods of the base, with those of the derived class over them.
unfoldable pub merged : String → String → Hierarchy → Hierarchy
unfolding assign_all
merged base derived h = record h {
  methods =
      put_at derived (assign_all (h.methods derived) (assign_all (h.methods base) [])) h.methods;
}

-- fillInMethods, with the classes below the derived one, to the depth of the fuel.
module _ (fill : String → String → Hierarchy → Option Hierarchy) where
  unfoldable pub fill_next : String → List String → Option Hierarchy → Option Hierarchy
  fill_next base [] o = o
  fill_next base (c ∷ cs) none = none
  fill_next base (c ∷ cs) (some h) = fill_next base cs (fill base c h)

unfoldable pub fill_in_methods : ℕ → String → String → Hierarchy → Option Hierarchy
unfolding merged fill_next
fill_in_methods zero base derived h = none
fill_in_methods (suc fuel) base derived h =
    fill_next (fill_in_methods fuel) derived (h.subclasses derived) (some (merged base derived h))

unfoldable pub propagate_roots : ℕ → List String → Option Hierarchy → Option Hierarchy
unfolding fill_in_methods fill_next
propagate_roots fuel [] o = o
propagate_roots fuel (r ∷ rs) none = none
propagate_roots fuel (r ∷ rs) (some h) =
    propagate_roots fuel rs (fill_next (fill_in_methods fuel) r (h.subclasses r) (some h))

-- propagateSubclassMethods
unfoldable pub propagate_subclass_methods : ℕ → Hierarchy → Option Hierarchy
unfolding propagate_roots
propagate_subclass_methods fuel h = propagate_roots fuel h.root_classes (some h)

unfoldable pub is_external : String → Hierarchy → Bool
unfolding contains
is_external c h = not (contains c h.defined_classes)
