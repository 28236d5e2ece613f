-- ===== src/Declarations/Unique.antt =====
-- Whatever lib/ProtoWriter/CPGTypeEmitter.cpp emits, a name has one TYPE_DECL node.
use llvm2cpg.Prelude.{
  arith, ℕ, suc, ◌<◌, ◌≡◌, ◌≢◌, refl, sym, ap, ◌∙◌, String, Bool, true, false, Option, none, some,
  List, [], ◌∷◌, ◌++◌, ◌==◌, ==→eq, Bool-cases, inl, inr,
}
use text.Mathlib.Text.{◌==◌ as str_eq}
use text.Mathlib.TextEquality.{eq_iff}
use mathlib.Core.Option.{some-injective, none-ne-some}
use llvm2cpg.Types.{Ty}
use llvm2cpg.Types.Naming.{lookup_text, get_struct_members}
use llvm2cpg.Graph.{
  Graph, NodeType, Property, new_node, set_properties, connect, EdgeType, type_decl, type, member,
  full_name, alias_type_full_name,
}
use llvm2cpg.Declarations.{
  Declarations, emit_type, declare, emit_found_decl, emit_type_decl, emit_names,
  emit_recorded_types, emit_aliases, emit_member, emit_members, emit_struct, emit_unless,
  emit_named_struct, emit_structs, naming, set, aliases_of,
}

-- The value of the first property named FULL_NAME.
abbrev pub find_full_name : List Property → Option String
find_full_name [] = none
find_full_name (full_name t ∷ ps) = some t
find_full_name (_ ∷ ps) = find_full_name ps

abbrev pub Table : Type 0
Table = List (String × ℕ)

-- The table and the TYPE_DECL nodes correspond, and an entry is under the full name of its node.
pub record Corresponds (table : Table) (g : Graph) : Type 0 where
  pub sound :
      (t : String) (k : ℕ)
      → lookup_text t table ≡ some k
      → (k < g.node_id)
        × ((g.nodes k).type ≡ type_decl)
        × (find_full_name (g.nodes k).properties ≡ some t)
  pub complete :
      (k : ℕ)
      → k < g.node_id
      → (g.nodes k).type ≡ type_decl
      → (t : String) × (lookup_text t table ≡ some k)

abbrev pub HasDecls : Declarations → Type 0
HasDecls s = Corresponds s.named_type_decls s.graph

full_name-append :
    (ps qs : List Property) (t : String)
    → find_full_name ps ≡ some t
    → find_full_name (ps ++ qs) ≡ some t
full_name-append [] qs t h = absurd (none-ne-some t h)
full_name-append (full_name u ∷ ps) qs t h = h
full_name-append (_ ∷ ps) qs t h = full_name-append ps qs t h

pub set-Corresponds :
    (table : Table) (g : Graph) (j : ℕ) (ps : List Property)
    → Corresponds table g
    → Corresponds table (set_properties j ps g)
unfolding set_properties
set-Corresponds table g j ps h = record {
  sound = λ t k look.
      let (lt, is, named) = h.sound t k look in
      elim (Bool-cases (k == j)) [
        | inl same ↦
            let e = ==→eq k j same in
            let named' : find_full_name (g.nodes j).properties ≡ some t = rw (← e) named in
            rw same (lt, rw (← e) is, full_name-append (g.nodes j).properties ps t named')
        | inr differ ↦ rw differ (lt, is, named)
      ];
  complete = λ k lt is. elim (Bool-cases (k == j)) [
    | inl same ↦
        let is' : (g.nodes j).type ≡ type_decl = rw same at is in
        h.complete k lt (rw (==→eq k j same) is')
    | inr differ ↦ h.complete k lt (rw differ at is)
  ];
}

-- A node of another kind.
pub other-Corresponds :
    (table : Table) (g : Graph) (kind : NodeType)
    → kind ≢ type_decl
    → Corresponds table g
    → Corresponds table (new_node kind g)
unfolding new_node
other-Corresponds table g kind other h = record {
  sound = λ t k look.
      let (lt, is, named) = h.sound t k look in
      let old : (k == g.node_id) ≡ false = ground arith in rw old (omega arith, is, named);
  complete = λ k lt is. elim (Bool-cases (k == g.node_id)) [
    | inl same ↦ absurd (other (rw same at is))
    | inr differ ↦ h.complete k (ground (arith, differ)) (rw differ at is)
  ];
}

pub connect-Corresponds :
    (table : Table) (g : Graph) (kind : EdgeType) (j k : ℕ)
    → Corresponds table g
    → Corresponds table (connect kind j k g)
unfolding connect
connect-Corresponds table g kind j k h = record { sound = h.sound; complete = h.complete }

-- A node under a name that has none yet.
declare-HasDecls :
    (t location : String) (s : Declarations)
    → lookup_text t s.named_type_decls ≡ none
    → HasDecls s
    → HasDecls (declare t location s).1
unfolding declare set_properties new_node lookup_text
declare-HasDecls t location s none_yet h = record {
  sound = λ u k look. elim (Bool-cases (str_eq t u)) [
    | inl same ↦
        let e : some s.graph.node_id ≡ some k = rw same at look in
        let e' = some-injective s.graph.node_id k e in rw (← e', ← (eq_iff t u).0 same) ground arith
    | inr differ ↦
        let old : lookup_text u s.named_type_decls ≡ some k = rw differ at look in
        let (lt, is, named) = h.sound u k old in
        let apart : (k == s.graph.node_id) ≡ false = ground arith in
        rw apart (omega arith, is, named)
  ];
  complete = λ k lt is. elim (Bool-cases (k == s.graph.node_id)) [
    | inl same ↦ (t, rw ((eq_iff t t).1 refl) (ap some (sym (==→eq k s.graph.node_id same))))
    | inr differ ↦
        let (u, look) = h.complete k (ground (arith, differ)) (rw differ at is) in
        elim (Bool-cases (str_eq t u)) [
          | inl same ↦
              let look' : lookup_text t s.named_type_decls ≡ some k =
                rw ((eq_iff t u).0 same) look in
              absurd (none-ne-some k (sym none_yet ∙ look'))
          | inr apart ↦ (u, rw apart look)
        ]
  ];
}

pub type-HasDecls : (t : String) (s : Declarations) → HasDecls s → HasDecls (emit_type t s)
unfolding emit_type
type-HasDecls t s h =
    set-Corresponds s.named_type_decls (new_node type s.graph) s.graph.node_id _
      (other-Corresponds s.named_type_decls s.graph type (λ e. ground arith) h)

found-HasDecls :
    (t location : String) (found : Option ℕ) (s : Declarations)
    → lookup_text t s.named_type_decls ≡ found
    → HasDecls s
    → HasDecls (emit_found_decl t location found s).1
unfolding emit_found_decl
found-HasDecls t location (some node) s e h = h
found-HasDecls t location none s e h = declare-HasDecls t location s e h

pub decl-HasDecls :
    (t location : String) (s : Declarations) → HasDecls s → HasDecls (emit_type_decl t location s).1
unfolding emit_type_decl
decl-HasDecls t location s h = found-HasDecls t location _ s refl h

names-HasDecls :
    (l : List (String × String)) (s : Declarations) → HasDecls s → HasDecls (emit_names l s)
unfolding emit_names
names-HasDecls [] s h = h
names-HasDecls ((t, location) ∷ rest) s h =
    names-HasDecls rest _ (decl-HasDecls t location (emit_type t s) (type-HasDecls t s h))

aliases-HasDecls :
    (canonical : String) (l : List String) (s : Declarations)
    → HasDecls s
    → HasDecls (emit_aliases canonical l s)
unfolding emit_aliases
aliases-HasDecls canonical [] s h = h
aliases-HasDecls canonical (alias ∷ rest) s h =
    let (decl, s₁) = emit_type_decl alias "<global>" s in
    aliases-HasDecls canonical rest _ (
      type-HasDecls alias (set decl (alias_type_full_name canonical ∷ []) s₁)
        (set-Corresponds s₁.named_type_decls s₁.graph decl _ (decl-HasDecls alias "<global>" s h)))

member-HasDecls :
    (decl : ℕ) (names : List String) (i : ℕ) (t : String) (s : Declarations)
    → HasDecls s
    → HasDecls (emit_member decl names i t s)
unfolding emit_member
member-HasDecls decl names i t s h =
    connect-Corresponds s.named_type_decls _ _ decl s.graph.node_id (
      set-Corresponds s.named_type_decls (new_node member s.graph) s.graph.node_id _
        (other-Corresponds s.named_type_decls s.graph member (λ e. ground arith) h))

members-HasDecls :
    (decl : ℕ) (names : List String) (i : ℕ) (ts : List Ty) (s : Declarations)
    → HasDecls s
    → HasDecls (emit_members decl names i ts s)
unfolding emit_members
members-HasDecls decl names i [] s h = h
members-HasDecls decl names i (t ∷ ts) s h =
    let (n, s₁) = naming t s in
    let (ignored, s₂) = emit_type_decl n "<global>" s₁ in
    members-HasDecls decl names (suc i) ts _ (
      member-HasDecls decl names i n (emit_type n s₂)
        (type-HasDecls n s₂ (decl-HasDecls n "<global>" s₁ h)))

struct-HasDecls :
    (address : ℕ) (canonical : String) (elements : List Ty) (s : Declarations)
    → HasDecls s
    → HasDecls (emit_struct address canonical elements s)
unfolding emit_struct
struct-HasDecls address canonical elements s h =
    let s₁ = emit_aliases canonical (aliases_of canonical s) s in
    let (decl, s₂) = emit_type_decl canonical "<global>" s₁ in
    let s₃ = emit_type canonical s₂ in
    let (names, types) = get_struct_members address s₃.types in
    members-HasDecls decl names 0 elements (record s₃ { types = types })
      (type-HasDecls canonical s₂ (
        decl-HasDecls canonical "<global>" s₁
          (aliases-HasDecls canonical (aliases_of canonical s) s h)))

unless-HasDecls :
    (address : ℕ) (canonical : String) (elements : List Ty) (done : Bool) (emitted : List String)
    (s : Declarations)
    → HasDecls s
    → HasDecls (emit_unless address canonical elements done emitted s).1
unfolding emit_unless
unless-HasDecls address canonical elements true emitted s h = h
unless-HasDecls address canonical elements false emitted s h =
    struct-HasDecls address canonical elements s h

named_struct-HasDecls :
    (address : ℕ) (n : Option String) (body : Option (List Ty)) (emitted : List String)
    (s : Declarations)
    → HasDecls s
    → HasDecls (emit_named_struct address n body emitted s).1
unfolding emit_named_struct
named_struct-HasDecls address none body emitted s h = h
named_struct-HasDecls address (some n) none emitted s h = h
named_struct-HasDecls address (some n) (some elements) emitted s h =
    unless-HasDecls address _ elements _ emitted _ h

pub structs-HasDecls :
    (l : List ℕ) (emitted : List String) (s : Declarations)
    → HasDecls s
    → HasDecls (emit_structs l emitted s).1
unfolding emit_structs
structs-HasDecls [] emitted s h = h
structs-HasDecls (address ∷ rest) emitted s h =
    structs-HasDecls rest _ _ (named_struct-HasDecls address _ _ emitted s h)

-- Two declarations of one name are one node.
abbrev pub IsUnique : Graph → Type 0
IsUnique g =
    (j k : ℕ) (t : String)
    → j < g.node_id
    → k < g.node_id
    → (g.nodes j).type ≡ type_decl
    → (g.nodes k).type ≡ type_decl
    → find_full_name (g.nodes j).properties ≡ some t
    → find_full_name (g.nodes k).properties ≡ some t
    → j ≡ k

HasDecls-IsUnique : (s : Declarations) → HasDecls s → IsUnique s.graph
HasDecls-IsUnique s h j k t lt_j lt_k is_j is_k name_j name_k =
    some-injective j k (sym (at j lt_j is_j name_j) ∙ at k lt_k is_k name_k)
  where
    at :
        (i : ℕ)
        → i < s.graph.node_id
        → (s.graph.nodes i).type ≡ type_decl
        → find_full_name (s.graph.nodes i).properties ≡ some t
        → lookup_text t s.named_type_decls ≡ some i
    at i lt is named =
        let (u, look) = h.complete i lt is in
        let (lt', is', named') = h.sound u i look in
        rw (some-injective t u (sym named ∙ named')) look

-- If the table of named declarations corresponds to the TYPE_DECL nodes of the graph, then it
-- does so after the members of any structs and the recorded types were emitted, and no two
-- TYPE_DECL nodes have the same full name.
pub emitted-IsUnique :
    (structs : List ℕ) (emitted : List String) (s : Declarations)
    → HasDecls s
    → let (emitted', s₁) = emit_structs structs emitted s in
      HasDecls (emit_recorded_types s₁) × IsUnique (emit_recorded_types s₁).graph
unfolding emit_recorded_types
emitted-IsUnique structs emitted s h =
    let (emitted', s₁) = emit_structs structs emitted s in
    let k = names-HasDecls s₁.types.recorded_types s₁ (structs-HasDecls structs emitted s h) in
    (k, HasDecls-IsUnique (emit_recorded_types s₁) k)
