-- ===== src/Emission/Order.antt =====
-- The control flow of a tree is one path: its nodes in post-order, each once.
use llvm2cpg.Prelude.{ℕ, ◌≡◌, refl, ap, ◌∙◌, List, [], ◌∷◌, ◌++◌, append-nil, append_assoc}
use mathlib.Core.List.{Perm, perm_middle}
use mathlib.Core.List.Perm
use llvm2cpg.Prelude.Perms.{perm_inside, perm_two, perm_around, perm_sibling, from_eq, to_eq}
use llvm2cpg.Emission.Trees.{
  Tree, Trees, node, nil, more, swapped, root, first, first_of, post_order, post_orders, ends,
  between, last_root, own_cfg, cfg_edges, cfg_forest,
}

-- The consecutive pairs of a list.
unfoldable pub chain : List ℕ → List (ℕ × ℕ)
chain [] = []
chain (a ∷ []) = []
chain (a ∷ b ∷ rest) = (a, b) ∷ chain (b ∷ rest)

chain-join :
    (l m : List ℕ) (a b : ℕ)
    → chain ((l ++ a ∷ []) ++ b ∷ m) ≡ chain (l ++ a ∷ []) ++ (a, b) ∷ chain (b ∷ m)
unfolding chain
chain-join [] m a b = refl
chain-join (x ∷ []) m a b = refl
chain-join (x ∷ y ∷ l) m a b = ap (λ z. (x, y) ∷ z) (chain-join (y ∷ l) m a b)

-- A forest, followed by its parent's root, begins with the first node.
abbrev pub Begins : List ℕ → ℕ → Type 0
Begins l a = (rest : List ℕ) × (l ≡ a ∷ rest)

pub Begins-append : (l m : List ℕ) (a : ℕ) → Begins l a → Begins (l ++ m) a
Begins-append l m a (rest, e) = (rest ++ m, ap (λ z. z ++ m) e)

mutual
  unfolding post_order post_orders first first_of

  tree_Begins : (t : Tree) → Begins (post_order t) (first t)
  tree_Begins (node r ts) = forest_Begins r ts

  forest_Begins : (r : ℕ) (ts : Trees) → Begins (post_orders ts ++ r ∷ []) (first_of r ts)
  forest_Begins r nil = ([], refl)
  forest_Begins r (more t ts) = Begins-append _ _ _ (Begins-append _ _ _ (tree_Begins t))
  forest_Begins r (swapped t u) = Begins-append _ _ _ (Begins-append _ _ _ (tree_Begins t))

pub post_order-root : (t : Tree) → (l : List ℕ) × (post_order t ≡ l ++ root t ∷ [])
unfolding post_order
post_order-root (node r ts) = (post_orders ts, refl)

pub post_order-first : (t : Tree) → Begins (post_order t) (first t)
post_order-first t = tree_Begins t

-- A path through a tree and on to what begins with `b`.
chain-post_order :
    (t : Tree) (m : List ℕ) (b : ℕ)
    → Begins m b
    → chain (post_order t ++ m) ≡ chain (post_order t) ++ (root t, b) ∷ chain m
chain-post_order t m b (rest, e) =
    let (l, f) = post_order-root t in rw (f, e) (chain-join l rest (root t) b)

own_step :
    (r a entry : ℕ) (ts : Trees)
    → Perm ((a, first_of r ts) ∷ own_cfg r (ends ts)) (own_cfg r ((a, entry) ∷ ends ts))
unfolding own_cfg ends between last_root first_of
own_step r a entry nil = Perm.refl _
own_step r a entry (more t ts) = perm_inside _ _ _
own_step r a entry (swapped t u) = Perm.swap _ _ _

mutual
  unfolding post_order post_orders cfg_edges cfg_forest own_cfg ends chain between last_root

  flow_tree : (t : Tree) → Perm (chain (post_order t)) (cfg_edges t)
  flow_tree (node r ts) = flow_forest r ts

  flow_forest :
      (r : ℕ) (ts : Trees)
      → Perm (chain (post_orders ts ++ r ∷ [])) (own_cfg r (ends ts) ++ cfg_forest ts)
  flow_forest r nil = Perm.refl []
  flow_forest r (more t ts) =
      from_eq
        (ap chain (append_assoc (post_order t) _ _) ∙ chain-post_order t _ _ (forest_Begins r ts))
        (Perm.trans (Perm.append (flow_tree t) (Perm.cons _ (flow_forest r ts)))
          (perm_around _ _ _ _ _ (own_step r (root t) (first t) ts)))
  flow_forest r (swapped t u) =
      from_eq
        (ap chain (append_assoc (post_order t) _ _)
          ∙ chain-post_order t _ _ (Begins-append _ _ _ (tree_Begins u))
          ∙ ap (λ z. chain (post_order t) ++ (root t, first u) ∷ z)
              (chain-post_order u (r ∷ []) r ([], refl)))
        (Perm.trans (perm_two _ _ _ _)
          (Perm.cons _ (Perm.cons _ (Perm.append (flow_tree t) (flow_tree u)))))

-- The edges between the trees of a forest, that has no parent.
unfoldable pub siblings : List (ℕ × ℕ) → List (ℕ × ℕ)
unfolding between
siblings [] = []
siblings ((a, entry) ∷ rest) = between a rest

-- The control flow edges of a tree are the consecutive pairs of its post-order.
pub cfg_edges-chain : (t : Tree) → Perm (cfg_edges t) (chain (post_order t))
cfg_edges-chain t = Perm.symm (flow_tree t)

-- Those of a forest with the edges between its trees are the consecutive pairs too.
pub cfg_forest-chain :
    (ts : Trees) → Perm (siblings (ends ts) ++ cfg_forest ts) (chain (post_orders ts))
unfolding post_orders cfg_forest ends chain between siblings
cfg_forest-chain nil = Perm.refl []
cfg_forest-chain (more t nil) = rw (append-nil (post_order t)) (cfg_edges-chain t)
cfg_forest-chain (more t (more u us)) =
    to_eq (chain-post_order t _ (first u) (Begins-append _ (post_orders us) _ (tree_Begins u)))
      (perm_sibling _ _ _ _ _ _ (cfg_edges-chain t) (cfg_forest-chain (more u us)))
cfg_forest-chain (more t (swapped u v)) =
    to_eq (chain-post_order t _ (first u) (Begins-append _ (post_order v) _ (tree_Begins u))) (
      perm_sibling (root t, first u) (siblings (ends (swapped u v))) (cfg_forest (swapped u v)) _ _
        _ (cfg_edges-chain t) (cfg_forest-chain (swapped u v)))
cfg_forest-chain (swapped t u) =
    to_eq (chain-post_order t (post_order u) (first u) (tree_Begins u)) (
      Perm.trans (Perm.cons _ (Perm.append (cfg_edges-chain t) (cfg_edges-chain u)))
        (Perm.symm (perm_middle _ _)))
