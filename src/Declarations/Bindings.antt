-- ===== src/Declarations/Bindings.antt =====
-- emitObjCTypes of lib/ProtoWriter/CPGTypeEmitter.cpp ends on a hierarchy without cycles, and
-- declares every class that can be reached from a root, so that `namedTypeDecl` finds it.
use llvm2cpg.Prelude.{
  arith, ℕ, zero, suc, ◌≤◌, ◌<◌, ◌≡◌, refl, String, Option, none, some, List, [], ◌∷◌, Bool-cases,
  inl, inr,
}
use text.Mathlib.Text.{◌==◌ as str_eq}
use text.Mathlib.TextEquality.{eq_iff}
use llvm2cpg.Prelude.Each.{All, In}
use llvm2cpg.Types.Naming.{lookup_text}
use llvm2cpg.Graph.{Property, is_external, inherits_from_type_full_name}
use llvm2cpg.ObjC.{Hierarchy}
use llvm2cpg.ObjC.{is_external as is_external_class}
use llvm2cpg.ObjC.Inherited.{IsRanked, Below, self, down}
use llvm2cpg.Declarations.{
  Declarations, declare, emit_type, emit_found_decl, emit_type_decl, named_type_decl, set,
}
use llvm2cpg.Declarations.Unique.{HasDecls, type-HasDecls, decl-HasDecls, set-Corresponds}
use llvm2cpg.Declarations.Classes.{
  emit_categories, emit_subclasses, emit_roots, emit_objc_type, emit_objc_types,
}

-- namedTypeDecl finds the name.
abbrev pub Declares : Declarations → String → Type 0
Declares s t = (k : ℕ) × (named_type_decl t s ≡ some k)

-- What was declared stays, and the table corresponds to the graph if it did.
record Grows (s s' : Declarations) : Type 0 where
  declared : (t : String) → Declares s t → Declares s' t
  has_decls : HasDecls s → HasDecls s'

Grows-trans : (s t u : Declarations) → Grows s t → Grows t u → Grows s u
Grows-trans s t u a b = record {
  declared = λ n d. b.declared n (a.declared n d);
  has_decls = λ h. b.has_decls (a.has_decls h);
}

type-Grows : (t : String) (s : Declarations) → Grows s (emit_type t s)
unfolding emit_type named_type_decl
type-Grows t s = record { declared = λ n d. d; has_decls = type-HasDecls t s }

set-Grows : (node : ℕ) (ps : List Property) (s : Declarations) → Grows s (set node ps s)
unfolding named_type_decl
set-Grows node ps s = record {
  declared = λ n d. d;
  has_decls = set-Corresponds s.named_type_decls s.graph node ps;
}

found-declared :
    (t location : String) (found : Option ℕ) (s : Declarations)
    → lookup_text t s.named_type_decls ≡ found
    → let s' = (emit_found_decl t location found s).1 in
      Declares s' t × ((n : String) → Declares s n → Declares s' n)
unfolding emit_found_decl declare named_type_decl lookup_text
found-declared t location (some node) s e = ((node, e), λ n d. d)
found-declared t location none s e = (
  (s.graph.node_id, rw ((eq_iff t t).1 refl) refl),
  λ n d. elim (Bool-cases (str_eq t n)) [
    | inl same ↦ (s.graph.node_id, rw same refl)
    | inr differ ↦ (d.0, rw differ d.1)
  ],
)

decl-declared :
    (t location : String) (s : Declarations) → Declares (emit_type_decl t location s).1 t
unfolding emit_type_decl
decl-declared t location s = (found-declared t location _ s refl).0

decl-Grows : (t location : String) (s : Declarations) → Grows s (emit_type_decl t location s).1
unfolding emit_type_decl
decl-Grows t location s = record {
  declared = (found-declared t location _ s refl).1;
  has_decls = decl-HasDecls t location s;
}

categories-Grows : (cs : List String) (s : Declarations) → Grows s (emit_categories cs s)
unfolding emit_categories
categories-Grows [] s = record { declared = λ n d. d; has_decls = λ h. h }
categories-Grows (c ∷ cs) s =
    let s₁ = (emit_type_decl c "<global>" s).1 in
    Grows-trans s s₁ _ (decl-Grows c "<global>" s)
      (Grows-trans s₁ (emit_type c s₁) _ (type-Grows c s₁) (categories-Grows cs (emit_type c s₁)))

categories-declared :
    (cs : List String) (s : Declarations) (c : String) → In c cs → Declares (emit_categories cs s) c
unfolding emit_categories
categories-declared [] s c i = absurd i
categories-declared (d ∷ cs) s c (inl e) =
    let s₁ = (emit_type_decl d "<global>" s).1 in
    rw e (
      (categories-Grows cs (emit_type d s₁)).declared d
        ((type-Grows d s₁).declared d (decl-declared d "<global>" s)))
categories-declared (d ∷ cs) s c (inr i) = categories-declared cs _ c i

module _ (rank : String → ℕ) (h : Hierarchy) (ranked : IsRanked rank h.subclasses) where
  -- The class and all below it are declared.
  abbrev Reaches : Declarations → String → Type 0
  Reaches s c = (u : String) → Below h.subclasses c u → Declares s u

  record Emitted (base : String) (s : Declarations) (o : Option (ℕ × Declarations)) : Type 0 where
    result : ℕ × Declarations
    is_result : o ≡ some result
    grows : Grows s result.1
    reaches : Reaches result.1 base

  record AllEmitted (cs : List String) (s : Declarations) (o : Option Declarations) : Type 0 where
    result : Declarations
    is_result : o ≡ some result
    grows : Grows s result
    reaches : (c : String) → In c cs → Reaches result c

  module _ (emit : String → Declarations → Option (ℕ × Declarations)) (fuel : ℕ)
      (emit-Emitted : (base : String) (s : Declarations)
        → rank base < fuel
        → Emitted base s (emit base s)) where
    subclasses-AllEmitted :
        (base : String) (cs : List String) (s : Declarations)
        → All (λ c. rank c < fuel) cs
        → AllEmitted cs s (emit_subclasses emit base cs s)
    unfolding emit_subclasses
    subclasses-AllEmitted base [] s all = record {
      result = s;
      is_result = refl;
      grows = record { declared = λ n d. d; has_decls = λ k. k };
      reaches = λ c i. absurd i;
    }
    subclasses-AllEmitted base (c ∷ cs) s all =
        let e = emit-Emitted c s all.0 in
        let s₁ = set e.result.0 _ e.result.1 in
        let step = set-Grows e.result.0 _ e.result.1 in
        let rest = subclasses-AllEmitted base cs s₁ all.1 in
        record {
          result = rest.result;
          is_result = rw e.is_result rest.is_result;
          grows =
              Grows-trans s e.result.1 rest.result e.grows
                (Grows-trans e.result.1 s₁ rest.result step rest.grows);
          reaches = reaches e rest;
        }
      where
        reaches :
            (e : Emitted c s (emit c s))
            (rest : AllEmitted cs
              (set e.result.0 (inherits_from_type_full_name base ∷ []) e.result.1)
              (emit_subclasses emit base cs
                (set e.result.0 (inherits_from_type_full_name base ∷ []) e.result.1)))
            (d : String)
            → In d (c ∷ cs)
            → Reaches rest.result d
        reaches e rest d (inr i) = rest.reaches d i
        reaches e rest d (inl same) = rw same (λ u b.
            rest.grows.declared u ((set-Grows e.result.0 _ e.result.1).declared u (e.reaches u b)))

    roots-AllEmitted :
        (cs : List String) (s : Declarations)
        → All (λ c. rank c < fuel) cs
        → AllEmitted cs s (emit_roots emit cs s)
    unfolding emit_roots
    roots-AllEmitted [] s all = record {
      result = s;
      is_result = refl;
      grows = record { declared = λ n d. d; has_decls = λ k. k };
      reaches = λ c i. absurd i;
    }
    roots-AllEmitted (c ∷ cs) s all =
        let e = emit-Emitted c s all.0 in
        let rest = roots-AllEmitted cs e.result.1 all.1 in
        record {
          result = rest.result;
          is_result = rw e.is_result rest.is_result;
          grows = Grows-trans s e.result.1 rest.result e.grows rest.grows;
          reaches = reaches e rest;
        }
      where
        reaches :
            (e : Emitted c s (emit c s))
            (rest : AllEmitted cs e.result.1 (emit_roots emit cs e.result.1)) (d : String)
            → In d (c ∷ cs)
            → Reaches rest.result d
        reaches e rest d (inr i) = rest.reaches d i
        reaches e rest d (inl same) = rw same (λ u b. rest.grows.declared u (e.reaches u b))

  -- The own part of emitObjCType.
  own : String → Declarations → Declarations
  own base s =
      let (node, s₁) = emit_type_decl base "<global>" s in
      emit_type base (set node (is_external (is_external_class base h) ∷ []) s₁)

  own-Grows : (base : String) (s : Declarations) → Grows s (own base s) × Declares (own base s) base
  unfolding own
  own-Grows base s =
      let (node, s₁) = emit_type_decl base "<global>" s in
      let ps = is_external (is_external_class base h) ∷ [] in
      let later =
        Grows-trans s₁ (set node ps s₁) (emit_type base (set node ps s₁)) (set-Grows node ps s₁)
          (type-Grows base (set node ps s₁)) in
      (
        Grows-trans s s₁ _ (decl-Grows base "<global>" s) later,
        later.declared base (decl-declared base "<global>" s),
      )

  below_fuel :
      (fuel : ℕ) (base : String) (cs : List String)
      → rank base ≤ fuel
      → All (λ c. rank c < rank base) cs
      → All (λ c. rank c < fuel) cs
  below_fuel fuel base [] le all = tt
  below_fuel fuel base (c ∷ cs) le all = (omega (arith, all.0), below_fuel fuel base cs le all.1)

  emit-Emitted :
      (fuel : ℕ) (base : String) (s : Declarations)
      → rank base < fuel
      → Emitted base s (emit_objc_type fuel h base s)
  unfolding emit_objc_type own
  emit-Emitted zero base s lt = absurd (omega arith)
  emit-Emitted (suc fuel) base s lt =
      let node = (emit_type_decl base "<global>" s).0 in
      let s₃ = own base s in
      let (grows, declares) = own-Grows base s in
      let all =
        subclasses-AllEmitted (emit_objc_type fuel h) fuel (emit-Emitted fuel) base
          (h.subclasses base) s₃
          (below_fuel fuel base (h.subclasses base) (omega arith) (ranked base)) in
      record {
        result = (node, all.result);
        is_result = rw all.is_result refl;
        grows = Grows-trans s s₃ all.result grows all.grows;
        reaches = reaches all declares;
      }
    where
      reaches :
          (all : AllEmitted
            (h.subclasses base)
            (own base s)
            (emit_subclasses (emit_objc_type fuel h) base (h.subclasses base) (own base s)))
          → Declares (own base s) base
          → Reaches all.result base
      reaches all declares u (self _) = all.grows.declared base declares
      reaches all declares u (down _ d _ i b) = all.reaches d i u b

  all_below :
      (fuel : ℕ) (cs : List String) → ((c : String) → rank c < fuel) → All (λ c. rank c < fuel) cs
  all_below fuel [] lt = tt
  all_below fuel (c ∷ cs) lt = (lt c, all_below fuel cs lt)

-- If the subclasses of each class have a lower rank and every rank is below the fuel, and the
-- table of named declarations corresponds to the TYPE_DECL nodes of the graph, then
-- emitObjCTypes ends, namedTypeDecl finds afterwards every class that can be reached from a
-- root class and every category, and the table corresponds to the graph again.
pub emit_objc_types-declared :
    (rank : String → ℕ) (fuel : ℕ) (h : Hierarchy) (s : Declarations)
    → IsRanked rank h.subclasses
    → ((c : String) → rank c < fuel)
    → HasDecls s
    → (s' : Declarations) × (emit_objc_types fuel h s ≡ some s')
      × ((r c : String)
          → In r h.root_classes
          → Below h.subclasses r c
          → (k : ℕ) × (named_type_decl c s' ≡ some k))
      × ((c : String) → In c h.categories → (k : ℕ) × (named_type_decl c s' ≡ some k))
      × HasDecls s'
unfolding emit_objc_types
emit_objc_types-declared rank fuel h s ranked lt has =
    let s₁ = emit_categories h.categories s in
    let all =
      roots-AllEmitted rank h ranked (emit_objc_type fuel h) fuel (emit-Emitted rank h ranked fuel)
        h.root_classes s₁ (all_below rank h ranked fuel h.root_classes lt) in
    (
      all.result,
      all.is_result,
      λ r c i b. all.reaches r i c b,
      λ c i. all.grows.declared c (categories-declared h.categories s c i),
      all.grows.has_decls ((categories-Grows h.categories s).has_decls has),
    )
