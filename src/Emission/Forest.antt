-- ===== src/Emission/Forest.antt =====
-- The specification of an emission: the graph after it is the graph before it with one more tree.
-- Rules to build it from the emissions of the operands.
use llvm2cpg.Prelude.{
  ℕ, ◌≤◌, ◌<◌, ◌≡◌, refl, ap, ◌∙◌, String, some, List, [], ◌∷◌, ◌++◌, arith, append_assoc,
}
use llvm2cpg.Graph.{Graph, Node, find_code, get_entry}
use llvm2cpg.Emitter.State.{Emitter, M}
use llvm2cpg.Emitter.Connections.{last}
use llvm2cpg.Emission.Trees.{
  Tree, Trees, nil, more, swapped, root, roots, first, first_of, ends, between, last_root, own_cfg,
  cfg_edges, cfg_forest, child_edges, child_forest, is_cfg, is_ast, is_argument, select,
}
use llvm2cpg.Emission.Layout.{InTree, InForest, root_bounds}
use llvm2cpg.Emission.Edges.{code_at, sibling_edges}
use llvm2cpg.Emission.Resolve.{own_edges, entry_of}

abbrev pub HasCode : Graph → ℕ → Type 0
HasCode g j = (text : String) × (code_at g j ≡ some text)

-- From `g` to `g'` one tree was added, with the root `r`: exactly its control flow, AST and
-- argument edges; its root has its entry and a code; its keys are new; older nodes are untouched.
pub record Emits (g g' : Graph) (r : ℕ) : Type 0 where
  pub tree : Tree
  pub root_eq : root tree ≡ r
  pub flow : select is_cfg g'.edges ≡ cfg_edges tree ++ select is_cfg g.edges
  pub children : select is_ast g'.edges ≡ child_edges tree ++ select is_ast g.edges
  pub arguments : select is_argument g'.edges ≡ child_edges tree ++ select is_argument g.edges
  pub entry : get_entry g' r ≡ first tree
  pub code : HasCode g' r
  pub within : InTree g.node_id g'.node_id tree
  pub frame : (j : ℕ) → j < g.node_id → g'.nodes j ≡ g.nodes j

-- Each tree's root has its entry and a code.
abbrev pub IsReady : Graph → Tree → Type 0
IsReady g t = (get_entry g (root t) ≡ first t) × HasCode g (root t)

abbrev pub Ready : Graph → Trees → Type 0
Ready g nil = Unit {0}
Ready g (more t ts) = IsReady g t × Ready g ts
Ready g (swapped t u) = IsReady g t × IsReady g u

pub record EmitsAll (g g' : Graph) (rs : List ℕ) : Type 0 where
  pub trees : Trees
  pub roots_eq : roots trees ≡ rs
  pub flow : select is_cfg g'.edges ≡ cfg_forest trees ++ select is_cfg g.edges
  pub children : select is_ast g'.edges ≡ child_forest trees ++ select is_ast g.edges
  pub arguments : select is_argument g'.edges ≡ child_forest trees ++ select is_argument g.edges
  pub ready : Ready g' trees
  pub within : InForest g.node_id g'.node_id trees
  pub frame : (j : ℕ) → j < g.node_id → g'.nodes j ≡ g.nodes j

-- Every run of the action adds one tree, or one forest, to the graph.
pub record Emitting (m : M ℕ) : Type 0 where
  pub at : (s : Emitter) → Emits s.graph (m s).1.graph (m s).0

pub record EmittingAll (m : M (List ℕ)) : Type 0 where
  pub at : (s : Emitter) → EmitsAll s.graph (m s).1.graph (m s).0

pub Emits-le : {g g' : Graph} {r : ℕ} → Emits g g' r → g.node_id ≤ g'.node_id
Emits-le {g} {g'} h = omega (arith, root_bounds g.node_id g'.node_id h.tree h.within)

pub EmitsAll-nil : (g : Graph) → EmitsAll g g []
unfolding cfg_forest child_forest
EmitsAll-nil g = record {
  trees = nil;
  roots_eq = refl;
  flow = refl;
  children = refl;
  arguments = refl;
  ready = tt;
  within = omega arith;
  frame = λ j h. refl;
}

-- A node that a later emission leaves alone stays ready.
pub IsReady-frame :
    (g g' : Graph) (t : Tree) → g'.nodes (root t) ≡ g.nodes (root t) → IsReady g t → IsReady g' t
unfolding get_entry
IsReady-frame g g' t e h = (
  ap (λ (n : Node). n.entry) e ∙ h.0,
  (h.1.0, ap (λ (n : Node). find_code n.properties) e ∙ h.1.1),
)

Emits-IsReady : {g g' : Graph} {r : ℕ} (h : Emits g g' r) → IsReady g' h.tree
Emits-IsReady h = (rw h.root_eq h.entry, rw h.root_eq h.code)

pub EmitsAll-more :
    {g g₁ g₂ : Graph} {r : ℕ} {rs : List ℕ}
    → Emits g g₁ r
    → EmitsAll g₁ g₂ rs
    → EmitsAll g g₂ (r ∷ rs)
unfolding cfg_forest child_forest
EmitsAll-more {g} {g₁} {g₂} h k = record {
  trees = more h.tree k.trees;
  roots_eq = cc (h.root_eq, k.roots_eq);
  flow = k.flow ∙ rw (h.flow, append_assoc);
  children = k.children ∙ rw (h.children, append_assoc);
  arguments = k.arguments ∙ rw (h.arguments, append_assoc);
  ready = (
    IsReady-frame g₁ g₂ h.tree
        (k.frame (root h.tree) (root_bounds g.node_id g₁.node_id h.tree h.within).1)
        (Emits-IsReady h),
    k.ready,
  );
  within = (g₁.node_id, h.within, k.within);
  frame = λ j lt. k.frame j (omega (arith, Emits-le h)) ∙ h.frame j lt;
}

-- Two children, the second of which was emitted first.
pub EmitsAll-swapped :
    {g g₁ g₂ : Graph} {r q : ℕ} → Emits g g₁ q → Emits g₁ g₂ r → EmitsAll g g₂ (r ∷ q ∷ [])
unfolding cfg_forest child_forest
EmitsAll-swapped {g} {g₁} {g₂} h k = record {
  trees = swapped k.tree h.tree;
  roots_eq = cc (h.root_eq, k.root_eq);
  flow = k.flow ∙ rw (h.flow, append_assoc);
  children = k.children ∙ rw (h.children, append_assoc);
  arguments = k.arguments ∙ rw (h.arguments, append_assoc);
  ready = (
    Emits-IsReady k,
    IsReady-frame g₁ g₂ h.tree
        (k.frame (root h.tree) (root_bounds g.node_id g₁.node_id h.tree h.within).1)
        (Emits-IsReady h),
  );
  within = (g₁.node_id, h.within, k.within);
  frame = λ j lt. k.frame j (omega (arith, Emits-le h)) ∙ h.frame j lt;
}

-- The edges of resolveConnections are those of the tree once the children have their entries.
pub between-ends :
    (g : Graph) (a : ℕ) (ts : Trees)
    → Ready g ts
    → sibling_edges (get_entry g) a (roots ts) ≡ between a (ends ts)
unfolding sibling_edges between ends
between-ends g a nil h = refl
between-ends g a (more t ts) h = cc (between-ends g (root t) ts h.1, h.0.0)
between-ends g a (swapped t u) h = cc (h.0.0, h.1.0)

last-ends : (a : ℕ) (ts : Trees) → last a (roots ts) ≡ last_root a (ends ts)
unfolding last last_root ends
last-ends a nil = refl
last-ends a (more t ts) = last-ends (root t) ts
last-ends a (swapped t u) = refl

pub own-ends :
    (g : Graph) (p : ℕ) (ts : Trees)
    → Ready g ts
    → own_edges (get_entry g) p (roots ts) ≡ own_cfg p (ends ts)
unfolding own_edges own_cfg ends last
own-ends g p nil h = refl
own-ends g p (more t ts) h = cc (between-ends g (root t) ts h.1, last-ends (root t) ts)
own-ends g p (swapped t u) h = cc (h.1.0)

pub entry-ends :
    (g : Graph) (p : ℕ) (ts : Trees)
    → Ready g ts
    → entry_of (get_entry g) p (roots ts) ≡ first_of p ts
unfolding entry_of first
entry-ends g p nil h = refl
entry-ends g p (more t ts) h = h.0.0
entry-ends g p (swapped t u) h = h.0.0
