-- ===== src/Emission/Resolve.antt =====
-- What resolveConnections (lib/ProtoWriter/CPGEmitter.cpp) does to the graph as a whole.
use llvm2cpg.Prelude.{
  ℕ, ◌≡◌, ◌≢◌, refl, Bool, false, List, [], ◌∷◌, ◌++◌, arith, append_assoc, ◌∙◌, ap,
}
use llvm2cpg.Prelude.Keys.{Apart}
use llvm2cpg.Graph.{Graph, set_entry, connect, get_entry, cfg, EdgeType}
use llvm2cpg.Emitter.Connections.{last, resolve_cfg_connections, resolve_ast_connections, resolved}
use llvm2cpg.Emission.Trees.{links, select, is_cfg, is_ast, is_argument}
use llvm2cpg.Emission.Edges.{
  code_at, sibling_edges, siblings-nodes, siblings-node_id, siblings-cfg, siblings-other,
  arguments-nodes, arguments-node_id, arguments-argument, arguments-other, children-node_id,
  children-ast, children-other, children-code, children-entry, children-frame,
}

-- The edges into and between the children, when `f` gives their entries; where control enters.
unfoldable pub own_edges : (ℕ → ℕ) → ℕ → List ℕ → List (ℕ × ℕ)
unfolding sibling_edges
own_edges f p [] = []
own_edges f p (a ∷ rest) = sibling_edges f a rest ++ (last a rest, p) ∷ []

unfoldable pub entry_of : (ℕ → ℕ) → ℕ → List ℕ → ℕ
entry_of f p [] = p
entry_of f p (a ∷ rest) = f a

set_entry-other : (p e b : ℕ) (g : Graph) → p ≢ b → get_entry (set_entry p e g) b ≡ get_entry g b
unfolding set_entry get_entry
set_entry-other p e b g h = ground arith

sibling_edges-set_entry :
    (p e a : ℕ) (l : List ℕ) (g : Graph)
    → Apart p l
    → sibling_edges (get_entry (set_entry p e g)) a l ≡ sibling_edges (get_entry g) a l
unfolding sibling_edges
sibling_edges-set_entry p e a [] g h = refl
sibling_edges-set_entry p e a (b ∷ rest) g h =
    rw (sibling_edges-set_entry p e b rest g h.1, set_entry-other p e b g h.0)

flow-cfg :
    (p : ℕ) (l : List ℕ) (g : Graph)
    → Apart p l
    → select is_cfg (resolve_cfg_connections p l g).edges
      ≡ own_edges (get_entry g) p l ++ select is_cfg g.edges
unfolding resolve_cfg_connections own_edges connect set_entry get_entry
flow-cfg p [] g h = refl
flow-cfg p (a ∷ rest) g h =
    siblings-cfg a rest _
    ∙ rw append_assoc (
        ap (λ z. z ++ (last a rest, p) ∷ select is_cfg g.edges)
          (sibling_edges-set_entry p (get_entry g a) a rest g h.1))

flow-other :
    (is : EdgeType → Bool)
    → is cfg ≡ false
    → (p : ℕ) (l : List ℕ) (g : Graph)
    → select is (resolve_cfg_connections p l g).edges ≡ select is g.edges
unfolding resolve_cfg_connections connect set_entry
flow-other is h p [] g = refl
flow-other is h p (a ∷ rest) g = siblings-other is h a rest _ ∙ rw h

flow-node_id :
    (p : ℕ) (l : List ℕ) (g : Graph) → (resolve_cfg_connections p l g).node_id ≡ g.node_id
unfolding resolve_cfg_connections connect set_entry
flow-node_id p [] g = refl
flow-node_id p (a ∷ rest) g = siblings-node_id a rest _

-- Only the entry of the parent is set.
flow-nodes :
    (p : ℕ) (l : List ℕ) (g : Graph)
    → (resolve_cfg_connections p l g).nodes ≡ (set_entry p (entry_of (get_entry g) p l) g).nodes
unfolding resolve_cfg_connections connect set_entry entry_of
flow-nodes p [] g = refl
flow-nodes p (a ∷ rest) g = siblings-nodes a rest _

set_entry-code : (p e j : ℕ) (g : Graph) → code_at (set_entry p e g) j ≡ code_at g j
unfolding set_entry
set_entry-code p e j g = ground arith

set_entry_self : (p e : ℕ) (g : Graph) → get_entry (set_entry p e g) p ≡ e
unfolding set_entry get_entry
set_entry_self p e g = ground arith

set_entry-frame : (p e j : ℕ) (g : Graph) → p ≢ j → (set_entry p e g).nodes j ≡ g.nodes j
unfolding set_entry
set_entry-frame p e j g h = ground arith

module _ (p : ℕ) (l : List ℕ) (g : Graph) where
  pub resolved-node_id : (resolved p l g).node_id ≡ g.node_id
  unfolding resolved resolve_ast_connections
  resolved-node_id = arguments-node_id p l _ ∙ children-node_id 0 p l _ ∙ flow-node_id p l g

  pub resolved-cfg :
      Apart p l
      → select is_cfg (resolved p l g).edges ≡ own_edges (get_entry g) p l ++ select is_cfg g.edges
  unfolding resolved resolve_ast_connections
  resolved-cfg h =
      arguments-other is_cfg refl p l _ ∙ children-other is_cfg refl 0 p l _ ∙ flow-cfg p l g h

  pub resolved-ast : select is_ast (resolved p l g).edges ≡ links p l ++ select is_ast g.edges
  unfolding resolved resolve_ast_connections
  resolved-ast =
      arguments-other is_ast refl p l _
      ∙ children-ast 0 p l _
      ∙ ap (λ z. links p l ++ z) (flow-other is_ast refl p l g)

  pub resolved-argument :
      select is_argument (resolved p l g).edges ≡ links p l ++ select is_argument g.edges
  unfolding resolved resolve_ast_connections
  resolved-argument =
      arguments-argument p l _
      ∙ ap (λ z. links p l ++ z)
          (children-other is_argument refl 0 p l _ ∙ flow-other is_argument refl p l g)

  pub resolved-code : (j : ℕ) → code_at (resolved p l g) j ≡ code_at g j
  unfolding resolved resolve_ast_connections
  resolved-code j =
      rw (arguments-nodes p l _)
        (children-code 0 p j l _ ∙ rw (flow-nodes p l g) (set_entry-code p _ j g))

  pub resolved-entry : get_entry (resolved p l g) p ≡ entry_of (get_entry g) p l
  unfolding resolved resolve_ast_connections get_entry
  resolved-entry =
      rw (arguments-nodes p l _)
        (children-entry 0 p p l _ ∙ rw (flow-nodes p l g) (set_entry_self p _ g))

  pub resolved-frame : (j : ℕ) → p ≢ j → Apart j l → (resolved p l g).nodes j ≡ g.nodes j
  unfolding resolved resolve_ast_connections
  resolved-frame j ne apart =
      rw (arguments-nodes p l _)
        (children-frame 0 p j l _ apart ∙ rw (flow-nodes p l g) (set_entry-frame p _ j g ne))
