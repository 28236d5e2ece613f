-- ===== src/Declarations/Members.antt =====
-- The members of a struct: emitStructMembers of lib/ProtoWriter/CPGTypeEmitter.cpp.
use llvm2cpg.Prelude.{
  arith, ℕ, suc, ◌<◌, ◌≤◌, ◌≡◌, refl, ap, subst, ◌∙◌, ◌⊎◌, inl, inr, String, Option, none, some,
  List, [], ◌∷◌, get_elem?, to_string,
}
use llvm2cpg.Types.{Ty}
use llvm2cpg.Types.Naming.{TypeEmitter, type_to_string}
use llvm2cpg.Graph.{
  Graph, Edge, edge, new_node, set_properties, connect, ast, member, name, code, type_full_name,
  order,
}
use llvm2cpg.Declarations.{
  Declarations, emit_type, declare, emit_found_decl, emit_type_decl, emit_member, emit_members,
  naming, member_name,
}

-- The older nodes stay as they were.
pub record Extends (g g' : Graph) : Type 0 where
  pub later : g.node_id ≤ g'.node_id
  pub kept : (k : ℕ) → k < g.node_id → g'.nodes k ≡ g.nodes k

Extends-trans : (f g h : Graph) → Extends f g → Extends g h → Extends f h
Extends-trans f g h a b = record {
  later = omega (arith, a.later, b.later);
  kept = λ k lt. b.kept k (omega (arith, a.later)) ∙ a.kept k lt;
}

-- Neither edges nor the names of types change.
abbrev Adds : Declarations → Declarations → Type 0
Adds s s' = Extends s.graph s'.graph × (s'.graph.edges ≡ s.graph.edges) × (s'.types ≡ s.types)

type-Adds : (t : String) (s : Declarations) → Adds s (emit_type t s)
unfolding emit_type set_properties new_node
type-Adds t s = (record { later = omega arith; kept = λ k lt. ground arith }, refl, refl)

found-Adds :
    (t location : String) (found : Option ℕ) (s : Declarations)
    → Adds s (emit_found_decl t location found s).1
unfolding emit_found_decl declare set_properties new_node
found-Adds t location (some node) s =
    (record { later = omega arith; kept = λ k lt. refl }, refl, refl)
found-Adds t location none s =
    (record { later = omega arith; kept = λ k lt. ground arith }, refl, refl)

decl-Adds : (t location : String) (s : Declarations) → Adds s (emit_type_decl t location s).1
unfolding emit_type_decl
decl-Adds t location s = found-Adds t location _ s

-- The names of the types, one after the other.
abbrev pub type_names : List Ty → TypeEmitter → List String
type_names [] s = []
type_names (t ∷ ts) s = let (n, s₁) = type_to_string t s in n ∷ type_names ts s₁

-- The name that is given for the position, and the position where none is given.
abbrev pub MemberName : List String → ℕ → String → Type 0
MemberName names i n =
    (get_elem? names i ≡ some n) ⊎ ((get_elem? names i ≡ none) × (n ≡ to_string i))

chosen-MemberName :
    (names : List String) (i : ℕ) (given : Option String)
    → get_elem? names i ≡ given
    → MemberName names i (elim given [ some n ↦ n | none ↦ to_string i ])
chosen-MemberName names i none e = inr (e, refl)
chosen-MemberName names i (some n) e = inl e

member_name-MemberName : (names : List String) (i : ℕ) → MemberName names i (member_name names i)
member_name-MemberName names i = chosen-MemberName names i (get_elem? names i) refl

-- The nodes `ms` are the members from position `i` on: their names are those of the debug
-- information or the positions, and their types have the names `types`.
abbrev pub AreMembers : Graph → List String → ℕ → List String → List ℕ → Type 0
AreMembers g names i [] [] = Unit {0}
AreMembers g names i [] (m ∷ ms) = ⊥
AreMembers g names i (t ∷ ts) [] = ⊥
AreMembers g names i (t ∷ ts) (m ∷ ms) =
    (m < g.node_id)
    × ((g.nodes m).type ≡ member)
    × ((n : String) × MemberName names i n
        × ((g.nodes m).properties ≡ name n ∷ code n ∷ type_full_name t ∷ order i ∷ []))
    × AreMembers g names (suc i) ts ms

abbrev pub member_edges : ℕ → List ℕ → List Edge → List Edge
member_edges decl [] es = es
member_edges decl (m ∷ ms) es = member_edges decl ms (edge ast decl m ∷ es)

-- All from `n` on, in this order.
abbrev pub Increase : ℕ → List ℕ → Type 0
Increase n [] = Unit {0}
Increase n (m ∷ ms) = (n ≤ m) × Increase (suc m) ms

Increase-from : (a b : ℕ) (ms : List ℕ) → a ≤ b → Increase b ms → Increase a ms
Increase-from a b [] le h = tt
Increase-from a b (m ∷ ms) le h = (omega (arith, h.0), h.1)

pub record Added (decl : ℕ) (names : List String) (i : ℕ) (types : List String) (g g' : Graph)
    : Type 0 where
  pub members : List ℕ
  pub are : AreMembers g' names i types members
  pub new : Increase g.node_id members
  pub edges : g'.edges ≡ member_edges decl members g.edges
  pub extends : Extends g g'

member-Adds :
    (decl : ℕ) (names : List String) (i : ℕ) (t : String) (s : Declarations)
    → let s' = emit_member decl names i t s in
      Extends s.graph s'.graph
      × (s'.graph.edges ≡ edge ast decl s.graph.node_id ∷ s.graph.edges)
      × (s'.types ≡ s.types)
      × (s'.graph.node_id ≡ suc s.graph.node_id)
      × ((s'.graph.nodes s.graph.node_id).type ≡ member)
      × ((s'.graph.nodes s.graph.node_id).properties
          ≡ name (member_name names i)
            ∷ code (member_name names i)
            ∷ type_full_name t
            ∷ order i
            ∷ [])
unfolding emit_member set_properties new_node connect
member-Adds decl names i t s = (
  record { later = omega arith; kept = λ k lt. ground arith },
  refl,
  refl,
  refl,
  ground arith,
  ground arith,
)

-- Emitting the members of a struct leaves the older nodes as they were and adds one new MEMBER
-- node for each element, in order, with its type name, its order, and as name and code the name
-- that the debug information has at its position, or the position in digits where it has none;
-- the only new edges are the AST edges from the declaration to these nodes.
pub members-Added :
    (decl : ℕ) (names : List String) (i : ℕ) (ts : List Ty) (s : Declarations)
    → Added decl names i (type_names ts s.types) s.graph (emit_members decl names i ts s).graph
unfolding emit_members
members-Added decl names i [] s = record {
  members = [];
  are = tt;
  new = tt;
  edges = refl;
  extends = record { later = omega arith; kept = λ k lt. refl };
}
members-Added decl names i (t ∷ ts) s =
    let (n, s₁) = naming t s in
    let (ignored, s₂) = emit_type_decl n "<global>" s₁ in
    let s₃ = emit_type n s₂ in
    let (ext₂, edges₂, types₂) = decl-Adds n "<global>" s₁ in
    let (ext₃, edges₃, types₃) = type-Adds n s₂ in
    let s₄ = emit_member decl names i n s₃ in
    let (ext₄, edges₄, types₄, next, kind, properties) = member-Adds decl names i n s₃ in
    let rest : Added decl names (suc i) (type_names ts s₁.types) s₄.graph
        (emit_members decl names (suc i) ts s₄).graph =
      subst
        (λ types.
          Added decl names (suc i) (type_names ts types) s₄.graph
            (emit_members decl names (suc i) ts s₄).graph)
        (types₄ ∙ types₃ ∙ types₂) (members-Added decl names (suc i) ts s₄) in
    let node = s₃.graph.node_id in
    let same = rest.extends.kept node (omega (arith, next)) in
    let before = Extends-trans s.graph s₂.graph s₃.graph ext₂ ext₃ in
    record {
      members = node ∷ rest.members;
      are = (
        omega (arith, next, rest.extends.later),
        rw same kind,
        (member_name names i, member_name-MemberName names i, rw same properties),
        rest.are,
      );
      new = (
        before.later,
        Increase-from (suc node) s₄.graph.node_id rest.members (omega (arith, next)) rest.new,
      );
      edges =
          rest.edges
          ∙ ap (member_edges decl rest.members)
              (edges₄ ∙ ap (λ es. edge ast decl node ∷ es) (edges₃ ∙ edges₂));
      extends =
          Extends-trans s.graph s₄.graph _ (Extends-trans s.graph s₃.graph s₄.graph before ext₄)
            rest.extends;
    }
