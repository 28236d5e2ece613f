-- ===== src/Emission/Trees.antt =====
-- The shape of what an emission adds to the graph: a tree of node keys, with the edges that
-- resolveConnections (lib/ProtoWriter/CPGEmitter.cpp) makes for it, the newest first.
use llvm2cpg.Prelude.{ℕ, Bool, true, false, List, [], ◌∷◌, ◌++◌, if◌then◌else◌}
use llvm2cpg.Graph.{Edge, EdgeType, edge, ast, cfg, argument}

-- `swapped t u` is the two children t and u of which u was emitted first.
mutual
  pub data Tree : Type 0 where
    node : ℕ → Trees → Tree

  pub data Trees : Type 0 where
    nil : Trees
    more : Tree → Trees → Trees
    swapped : Tree → Tree → Trees

abbrev pub root : Tree → ℕ
root (node r ts) = r

abbrev pub roots : Trees → List ℕ
roots nil = []
roots (more t ts) = root t ∷ roots ts
roots (swapped t u) = root t ∷ root u ∷ []

-- Where control enters: the first node in post-order.
unfoldable mutual
  pub first : Tree → ℕ
  first (node r ts) = first_of r ts

  pub first_of : ℕ → Trees → ℕ
  first_of r nil = r
  first_of r (more t ts) = first t
  first_of r (swapped t u) = first t

unfoldable mutual
  pub post_order : Tree → List ℕ
  post_order (node r ts) = post_orders ts ++ r ∷ []

  pub post_orders : Trees → List ℕ
  post_orders nil = []
  post_orders (more t ts) = post_order t ++ post_orders ts
  post_orders (swapped t u) = post_order t ++ post_order u

-- The root and the first node of each tree.
unfoldable pub ends : Trees → List (ℕ × ℕ)
unfolding first
ends nil = []
ends (more t ts) = (root t, first t) ∷ ends ts
ends (swapped t u) = (root t, first t) ∷ (root u, first u) ∷ []

unfoldable pub between : ℕ → List (ℕ × ℕ) → List (ℕ × ℕ)
between a [] = []
between a ((b, entry) ∷ rest) = between b rest ++ (a, entry) ∷ []

unfoldable pub last_root : ℕ → List (ℕ × ℕ) → ℕ
last_root a [] = a
last_root a ((b, entry) ∷ rest) = last_root b rest

unfoldable pub own_cfg : ℕ → List (ℕ × ℕ) → List (ℕ × ℕ)
unfolding between last_root
own_cfg r [] = []
own_cfg r ((a, entry) ∷ rest) = between a rest ++ (last_root a rest, r) ∷ []

unfoldable mutual
  unfolding own_cfg ends

  pub cfg_edges : Tree → List (ℕ × ℕ)
  cfg_edges (node r ts) = own_cfg r (ends ts) ++ cfg_forest ts

  pub cfg_forest : Trees → List (ℕ × ℕ)
  cfg_forest nil = []
  cfg_forest (more t ts) = cfg_forest ts ++ cfg_edges t
  cfg_forest (swapped t u) = cfg_edges t ++ cfg_edges u

unfoldable pub links : ℕ → List ℕ → List (ℕ × ℕ)
links r [] = []
links r (a ∷ rest) = links r rest ++ (r, a) ∷ []

unfoldable mutual
  unfolding links

  pub child_edges : Tree → List (ℕ × ℕ)
  child_edges (node r ts) = links r (roots ts) ++ child_forest ts

  pub child_forest : Trees → List (ℕ × ℕ)
  child_forest nil = []
  child_forest (more t ts) = child_forest ts ++ child_edges t
  child_forest (swapped t u) = child_edges t ++ child_edges u

abbrev pub is_cfg : EdgeType → Bool
is_cfg cfg = true
is_cfg _ = false

abbrev pub is_ast : EdgeType → Bool
is_ast ast = true
is_ast _ = false

abbrev pub is_argument : EdgeType → Bool
is_argument argument = true
is_argument _ = false

-- The edges of one kind, the newest first.
abbrev pub select : (EdgeType → Bool) → List Edge → List (ℕ × ℕ)
select is [] = []
select is (edge t a b ∷ es) = if is t then (a, b) ∷ select is es else select is es
