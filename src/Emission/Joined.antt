-- ===== src/Emission/Joined.antt =====
-- A basic block in the graph: its control flow is one path, from the entry of its first node to its
-- last node, and every new node has one AST parent.
use llvm2cpg.Prelude.{
  ℕ, ◌≤◌, ◌<◌, ◌≡◌, refl, sym, ap, ◌∙◌, subst, List, [], ◌∷◌, ◌++◌, append-nil, append_assoc,
}
use llvm2cpg.Prelude.Keys.{AllIn, Distinct}
use mathlib.Core.List.{Perm}
use llvm2cpg.Graph.{Graph, Node, connect, get_entry}
use llvm2cpg.Emitter.State.{Emitter}
use llvm2cpg.Emitter.Connections.{connect_siblings, last}
use llvm2cpg.Emitter.Block.{Block, connect_children, emit_block}
use llvm2cpg.Emission.Trees.{
  Tree, Trees, nil, more, swapped, root, roots, post_order, post_orders, ends, between, cfg_forest,
  child_forest, links, is_cfg, is_ast, select,
}
use llvm2cpg.Emission.Layout.{roots-AllIn, InForest-le}
use llvm2cpg.Emission.Edges.{
  sibling_edges, siblings-nodes, siblings-node_id, siblings-cfg, siblings-other,
}
use llvm2cpg.Emission.Forest.{EmitsAll, Ready, between-ends}
use llvm2cpg.Emission.Order.{
  chain, Begins, Begins-append, siblings, post_order-first, post_order-root, cfg_forest-chain,
}
use llvm2cpg.Emission.Distinct.{post_orders-AllIn, post_orders-Distinct}
use llvm2cpg.Emission.Parents.{targets, child_forest-targets}
use llvm2cpg.Emission.Blocks.{collected-EmitsAll}

-- From `g` to `g'` a block with the nodes of `path` was added under `owner`.
pub record Joined (owner : ℕ) (g g' : Graph) (front back : ℕ) : Type 0 where
  pub path : List ℕ
  pub fresh : AllIn g.node_id g'.node_id path
  pub distinct : Distinct path
  pub begins : Begins path (get_entry g' front)
  pub finishes : (before : List ℕ) × (path ≡ before ++ back ∷ [])
  pub flow : List (ℕ × ℕ)
  pub flow_new : select is_cfg g'.edges ≡ flow ++ select is_cfg g.edges
  pub flow_path : Perm flow (chain path)
  pub children : List (ℕ × ℕ)
  pub ast_new : select is_ast g'.edges ≡ children ++ select is_ast g.edges
  pub parents : Perm (targets children) path
  pub front_new : front < g'.node_id
  pub grows : g.node_id ≤ g'.node_id
  pub frame : (j : ℕ) → j < g.node_id → g'.nodes j ≡ g.nodes j

-- The three descriptions by the list of roots, which is never empty in a block.
abbrev BeginsAs : Graph → List ℕ → List ℕ → Type 0
BeginsAs g path [] = Unit {0}
BeginsAs g path (a ∷ rest) = Begins path (get_entry g a)

abbrev Finishes : List ℕ → ℕ → Type 0
Finishes path b = (before : List ℕ) × (path ≡ before ++ b ∷ [])

abbrev FinishesAs : List ℕ → List ℕ → Type 0
FinishesAs path [] = Unit {0}
FinishesAs path (a ∷ rest) = Finishes path (last a rest)

abbrev siblings_of : Graph → List ℕ → List (ℕ × ℕ)
siblings_of g [] = []
siblings_of g (a ∷ rest) = sibling_edges (get_entry g) a rest

forest-BeginsAs : (g : Graph) (ts : Trees) → Ready g ts → BeginsAs g (post_orders ts) (roots ts)
unfolding post_orders
forest-BeginsAs g nil h = tt
forest-BeginsAs g (more t ts) h = rw h.0.0 (Begins-append _ _ _ (post_order-first t))
forest-BeginsAs g (swapped t u) h = rw h.0.0 (Begins-append _ _ _ (post_order-first t))

Finishes-after : (l m : List ℕ) (b : ℕ) → Finishes m b → Finishes (l ++ m) b
Finishes-after l m b (before, e) = (l ++ before, rw e (sym (append_assoc l before (b ∷ []))))

more-Finishes :
    (t : Tree) (ts : Trees) → Finishes (post_orders (more t ts)) (last (root t) (roots ts))
unfolding post_orders last
more-Finishes t nil = rw (append-nil (post_order t)) (post_order-root t)
more-Finishes t (more u us) = Finishes-after _ _ _ (more-Finishes u us)
more-Finishes t (swapped u v) = Finishes-after _ _ _ (Finishes-after _ _ _ (post_order-root v))

forest-FinishesAs : (ts : Trees) → FinishesAs (post_orders ts) (roots ts)
unfolding post_orders last
forest-FinishesAs nil = tt
forest-FinishesAs (more t ts) = more-Finishes t ts
forest-FinishesAs (swapped t u) = Finishes-after _ _ _ (post_order-root u)

forest-siblings :
    (g : Graph) (ts : Trees) → Ready g ts → siblings_of g (roots ts) ≡ siblings (ends ts)
unfolding siblings ends between sibling_edges
forest-siblings g nil h = refl
forest-siblings g (more t ts) h = between-ends g (root t) ts h.1
forest-siblings g (swapped t u) h = rw h.1.0 refl

module _ (owner : ℕ) where
  children-nodes : (l : List ℕ) (g : Graph) → (connect_children owner l g).nodes ≡ g.nodes
  unfolding connect_children connect
  children-nodes [] g = refl
  children-nodes (a ∷ l) g = children-nodes l _

  children-node_id : (l : List ℕ) (g : Graph) → (connect_children owner l g).node_id ≡ g.node_id
  unfolding connect_children connect
  children-node_id [] g = refl
  children-node_id (a ∷ l) g = children-node_id l _

  children-ast :
      (l : List ℕ) (g : Graph)
      → select is_ast (connect_children owner l g).edges ≡ links owner l ++ select is_ast g.edges
  unfolding connect_children connect links
  children-ast [] g = refl
  children-ast (a ∷ l) g = children-ast l _ ∙ rw append_assoc

  children-cfg :
      (l : List ℕ) (g : Graph)
      → select is_cfg (connect_children owner l g).edges ≡ select is_cfg g.edges
  unfolding connect_children connect
  children-cfg [] g = refl
  children-cfg (a ∷ l) g = children-cfg l _

module _ (owner : ℕ) (g g₁ : Graph) (front : ℕ) (rest : List ℕ) where
  abbrev joined : Graph
  joined = connect_siblings front rest (connect_children owner (front ∷ rest) g₁)

  joined-nodes : joined.nodes ≡ g₁.nodes
  joined-nodes = siblings-nodes front rest _ ∙ children-nodes owner (front ∷ rest) g₁

  joined-node_id : joined.node_id ≡ g₁.node_id
  joined-node_id = siblings-node_id front rest _ ∙ children-node_id owner (front ∷ rest) g₁

  joined-entry : (j : ℕ) → get_entry joined j ≡ get_entry g₁ j
  unfolding get_entry
  joined-entry j = ap (λ (f : ℕ → Node). (f j).entry) joined-nodes

  joined-cfg : select is_cfg joined.edges ≡ siblings_of g₁ (front ∷ rest) ++ select is_cfg g₁.edges
  unfolding get_entry
  joined-cfg =
      let h = connect_children owner (front ∷ rest) g₁ in
      siblings-cfg front rest h
      ∙ ap (λ (f : ℕ → Node). sibling_edges (λ j. (f j).entry) front rest ++ select is_cfg h.edges)
          (children-nodes owner (front ∷ rest) g₁)
      ∙ ap (λ z. sibling_edges (get_entry g₁) front rest ++ z)
          (children-cfg owner (front ∷ rest) g₁)

  joined-ast : select is_ast joined.edges ≡ links owner (front ∷ rest) ++ select is_ast g₁.edges
  joined-ast = siblings-other is_ast refl front rest _ ∙ children-ast owner (front ∷ rest) g₁

  join : EmitsAll g g₁ (front ∷ rest) → Joined owner g joined front (last front rest)
  join k = record {
    path = post_orders k.trees;
    fresh = rw joined-node_id (post_orders-AllIn g.node_id g₁.node_id k.trees k.within);
    distinct = post_orders-Distinct g.node_id g₁.node_id k.trees k.within;
    begins =
        rw (joined-entry front) (
          subst (BeginsAs g₁ (post_orders k.trees)) k.roots_eq
            (forest-BeginsAs g₁ k.trees k.ready));
    finishes = subst (FinishesAs (post_orders k.trees)) k.roots_eq (forest-FinishesAs k.trees);
    flow = siblings (ends k.trees) ++ cfg_forest k.trees;
    flow_new =
        joined-cfg
        ∙ rw
            (
              sym (ap (siblings_of g₁) k.roots_eq) ∙ forest-siblings g₁ k.trees k.ready,
              k.flow,
              append_assoc,
            )
            refl;
    flow_path = cfg_forest-chain k.trees;
    children = links owner (roots k.trees) ++ child_forest k.trees;
    ast_new = joined-ast ∙ rw (sym (ap (links owner) k.roots_eq), k.children, append_assoc) refl;
    parents = child_forest-targets owner k.trees;
    front_new =
        rw joined-node_id
          (subst (AllIn g.node_id g₁.node_id) k.roots_eq
            (roots-AllIn g.node_id g₁.node_id k.trees k.within)).1;
    grows = rw joined-node_id (InForest-le g.node_id g₁.node_id k.trees k.within);
    frame = λ j lt. ap (λ (f : ℕ → Node). f j) joined-nodes ∙ k.frame j lt;
  }

-- Emitting a basic block adds control flow edges that are the consecutive pairs of one path
-- through new, distinct nodes, from the entry of the first node of the block to its last node,
-- and AST edges that give each of these nodes exactly one parent; no older node changes. This
-- holds for every block, also for one whose instructions make no node.
pub block-Joined :
    (owner n : ℕ) (b : Block) (s : Emitter)
    → let ((front, back, last_order), s₁) = emit_block owner n b s in
      Joined owner s.graph s₁.graph front back
unfolding emit_block
block-Joined owner n b s = join owner s.graph _ _ _ (collected-EmitsAll n b s)
