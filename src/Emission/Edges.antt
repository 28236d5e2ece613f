-- ===== src/Emission/Edges.antt =====
-- What the three parts of resolveConnections (lib/ProtoWriter/CPGEmitter.cpp) do to the graph, edge
-- kind by edge kind and node by node.
use llvm2cpg.Prelude.{
  ℕ, suc, ◌+◌, ◌≡◌, refl, String, Bool, false, Option, List, [], ◌∷◌, ◌++◌, arith, append_assoc,
  ◌∙◌,
}
use llvm2cpg.Prelude.Keys.{Apart}
use llvm2cpg.Graph.{
  Graph, Property, find_code, set_properties, connect, get_entry, cfg, ast, argument, order,
  argument_index, code, EdgeType,
}
use llvm2cpg.Emitter.Connections.{connect_siblings, resolve_ast_from, resolve_argument_connections}
use llvm2cpg.Emission.Trees.{links, select, is_cfg, is_ast, is_argument}

-- The code of a node, if one was set.
abbrev pub code_at : Graph → ℕ → Option String
code_at g j = find_code (g.nodes j).properties

-- The pairs that connect_siblings makes when `f` gives the entry of a node.
unfoldable pub sibling_edges : (ℕ → ℕ) → ℕ → List ℕ → List (ℕ × ℕ)
sibling_edges f a [] = []
sibling_edges f a (b ∷ rest) = sibling_edges f b rest ++ (a, f b) ∷ []

pub siblings-nodes : (a : ℕ) (l : List ℕ) (g : Graph) → (connect_siblings a l g).nodes ≡ g.nodes
unfolding connect_siblings connect
siblings-nodes a [] g = refl
siblings-nodes a (b ∷ rest) g = siblings-nodes b rest _

pub siblings-node_id :
    (a : ℕ) (l : List ℕ) (g : Graph) → (connect_siblings a l g).node_id ≡ g.node_id
unfolding connect_siblings connect
siblings-node_id a [] g = refl
siblings-node_id a (b ∷ rest) g = siblings-node_id b rest _

pub siblings-cfg :
    (a : ℕ) (l : List ℕ) (g : Graph)
    → select is_cfg (connect_siblings a l g).edges
      ≡ sibling_edges (get_entry g) a l ++ select is_cfg g.edges
unfolding connect_siblings connect sibling_edges get_entry
siblings-cfg a [] g = refl
siblings-cfg a (b ∷ rest) g = siblings-cfg b rest _ ∙ rw append_assoc

pub siblings-other :
    (is : EdgeType → Bool)
    → is cfg ≡ false
    → (a : ℕ) (l : List ℕ) (g : Graph)
    → select is (connect_siblings a l g).edges ≡ select is g.edges
unfolding connect_siblings connect
siblings-other is h a [] g = refl
siblings-other is h a (b ∷ rest) g = siblings-other is h b rest _ ∙ rw h

pub arguments-nodes :
    (p : ℕ) (l : List ℕ) (g : Graph) → (resolve_argument_connections p l g).nodes ≡ g.nodes
unfolding resolve_argument_connections connect
arguments-nodes p [] g = refl
arguments-nodes p (a ∷ rest) g = arguments-nodes p rest _

pub arguments-node_id :
    (p : ℕ) (l : List ℕ) (g : Graph) → (resolve_argument_connections p l g).node_id ≡ g.node_id
unfolding resolve_argument_connections connect
arguments-node_id p [] g = refl
arguments-node_id p (a ∷ rest) g = arguments-node_id p rest _

pub arguments-argument :
    (p : ℕ) (l : List ℕ) (g : Graph)
    → select is_argument (resolve_argument_connections p l g).edges
      ≡ links p l ++ select is_argument g.edges
unfolding resolve_argument_connections connect links
arguments-argument p [] g = refl
arguments-argument p (a ∷ rest) g = arguments-argument p rest _ ∙ rw append_assoc

pub arguments-other :
    (is : EdgeType → Bool)
    → is argument ≡ false
    → (p : ℕ) (l : List ℕ) (g : Graph)
    → select is (resolve_argument_connections p l g).edges ≡ select is g.edges
unfolding resolve_argument_connections connect
arguments-other is h p [] g = refl
arguments-other is h p (a ∷ rest) g = arguments-other is h p rest _ ∙ rw h

pub children-node_id :
    (i p : ℕ) (l : List ℕ) (g : Graph) → (resolve_ast_from i p l g).node_id ≡ g.node_id
unfolding resolve_ast_from connect set_properties
children-node_id i p [] g = refl
children-node_id i p (a ∷ rest) g = children-node_id (suc i) p rest _

pub children-ast :
    (i p : ℕ) (l : List ℕ) (g : Graph)
    → select is_ast (resolve_ast_from i p l g).edges ≡ links p l ++ select is_ast g.edges
unfolding resolve_ast_from connect links set_properties
children-ast i p [] g = refl
children-ast i p (a ∷ rest) g = children-ast (suc i) p rest _ ∙ rw append_assoc

pub children-other :
    (is : EdgeType → Bool)
    → is ast ≡ false
    → (i p : ℕ) (l : List ℕ) (g : Graph)
    → select is (resolve_ast_from i p l g).edges ≡ select is g.edges
unfolding resolve_ast_from connect set_properties
children-other is h i p [] g = refl
children-other is h i p (a ∷ rest) g = children-other is h (suc i) p rest _ ∙ rw h

-- Properties that are no code leave the code of every node.
pub find_code-positions :
    (ps : List Property) (m n : ℕ)
    → find_code (ps ++ order m ∷ argument_index n ∷ []) ≡ find_code ps
unfolding find_code
find_code-positions [] m n = refl
find_code-positions (code text ∷ ps) m n = refl
find_code-positions (_ ∷ ps) m n = find_code-positions ps m n

pub positions-code :
    (a m n j : ℕ) (g : Graph)
    → code_at (set_properties a (order m ∷ argument_index n ∷ []) g) j ≡ code_at g j
unfolding set_properties
positions-code a m n j g = ground (arith, find_code-positions (g.nodes j).properties m n)

pub set_properties-entry :
    (a j : ℕ) (ps : List Property) (g : Graph) → get_entry (set_properties a ps g) j ≡ get_entry g j
unfolding set_properties get_entry
set_properties-entry a j ps g = ground arith

pub children-code :
    (i p j : ℕ) (l : List ℕ) (g : Graph) → code_at (resolve_ast_from i p l g) j ≡ code_at g j
unfolding resolve_ast_from connect
children-code i p j [] g = refl
children-code i p j (a ∷ rest) g =
    children-code (suc i) p j rest _ ∙ positions-code a (i + 1) (i + 1) j g

pub children-entry :
    (i p j : ℕ) (l : List ℕ) (g : Graph) → get_entry (resolve_ast_from i p l g) j ≡ get_entry g j
unfolding resolve_ast_from connect get_entry
children-entry i p j [] g = refl
children-entry i p j (a ∷ rest) g = children-entry (suc i) p j rest _ ∙ set_properties-entry a j _ g

pub children-frame :
    (i p j : ℕ) (l : List ℕ) (g : Graph)
    → Apart j l
    → (resolve_ast_from i p l g).nodes j ≡ g.nodes j
unfolding resolve_ast_from connect set_properties
children-frame i p j [] g h = refl
children-frame i p j (a ∷ rest) g h = children-frame (suc i) p j rest _ h.1 ∙ ground arith
