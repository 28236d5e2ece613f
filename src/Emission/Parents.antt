-- ===== src/Emission/Parents.antt =====
-- The parents in a tree: every node but the root is the target of one AST edge.
use llvm2cpg.Prelude.{ℕ, ◌≡◌, refl, ap, List, [], ◌∷◌, ◌++◌}
use mathlib.Core.List.{Perm, perm_middle}
use mathlib.Core.List.Perm
use llvm2cpg.Prelude.Perms.{perm_snoc, perm_child}
use llvm2cpg.Emission.Trees.{
  Tree, Trees, node, nil, more, swapped, root, roots, post_order, post_orders, links, child_edges,
  child_forest,
}

-- The targets of a list of edges.
unfoldable pub targets : List (ℕ × ℕ) → List ℕ
targets [] = []
targets ((a, b) ∷ es) = b ∷ targets es

targets-append : (es fs : List (ℕ × ℕ)) → targets (es ++ fs) ≡ targets es ++ targets fs
unfolding targets
targets-append [] fs = refl
targets-append ((a, b) ∷ es) fs = ap (λ z. b ∷ z) (targets-append es fs)

mutual
  unfolding targets post_order post_orders child_edges child_forest links

  tree_parents : (t : Tree) → Perm (root t ∷ targets (child_edges t)) (post_order t)
  tree_parents (node r ts) =
      Perm.trans (Perm.cons r (forest_parents r ts)) (Perm.symm (perm_snoc r (post_orders ts)))

  forest_parents :
      (r : ℕ) (ts : Trees) → Perm (targets (links r (roots ts) ++ child_forest ts)) (post_orders ts)
  forest_parents r nil = Perm.refl []
  forest_parents r (more t ts) =
      let e =
        targets-append (links r (roots ts) ++ (r, root t) ∷ [])
          (child_forest ts ++ child_edges t) in
      let f = targets-append (links r (roots ts)) ((r, root t) ∷ []) in
      let g = targets-append (child_forest ts) (child_edges t) in
      let h = targets-append (links r (roots ts)) (child_forest ts) in
      rw (e, f, g)
        (perm_child (root t) (targets (links r (roots ts))) (targets (child_forest ts))
          (targets (child_edges t)) (post_order t) (post_orders ts) (tree_parents t)
          (rw h at (forest_parents r ts)))
  forest_parents r (swapped t u) =
      let g = targets-append (child_edges t) (child_edges u) in
      rw g (
        Perm.trans (Perm.swap (root t) (root u) _) (
          Perm.trans (Perm.cons (root t) (Perm.symm (perm_middle _ _)))
            (Perm.append (tree_parents t) (tree_parents u))))

-- The root and the targets of the AST edges are the nodes, each as often as it is there.
pub child_edges-targets : (t : Tree) → Perm (root t ∷ targets (child_edges t)) (post_order t)
child_edges-targets t = tree_parents t

-- The same for a forest whose roots are the children of `r`.
pub child_forest-targets :
    (r : ℕ) (ts : Trees) → Perm (targets (links r (roots ts) ++ child_forest ts)) (post_orders ts)
child_forest-targets r ts = forest_parents r ts
