-- ===== src/Emission/Layout.antt =====
-- The keys of a tree: all in the interval that its emission took from the graph's counter, and all
-- distinct, since siblings have intervals of their own and a root lies beside its children.
use llvm2cpg.Prelude.{ℕ, suc, ◌≤◌, ◌<◌, ◌⊎◌, inl, inr, List, [], ◌∷◌, arith}
use llvm2cpg.Prelude.Keys.{AllIn}
use llvm2cpg.Emission.Trees.{Tree, Trees, node, nil, more, swapped, root, roots}

abbrev mutual
  pub InTree : ℕ → ℕ → Tree → Type 0
  InTree lo hi (node r ts) = (lo ≤ r) × (r < hi) × (InForest lo r ts ⊎ InForest (suc r) hi ts)

  pub InForest : ℕ → ℕ → Trees → Type 0
  InForest lo hi nil = lo ≤ hi
  InForest lo hi (more t ts) = (mid : ℕ) × InTree lo mid t × InForest mid hi ts
  InForest lo hi (swapped t u) = (mid : ℕ) × InTree lo mid u × InTree mid hi t

pub root_bounds : (lo hi : ℕ) (t : Tree) → InTree lo hi t → (lo ≤ root t) × (root t < hi)
root_bounds lo hi (node r ts) h = (h.0, h.1)

AllIn-mono : (lo lo' hi : ℕ) (l : List ℕ) → lo' ≤ lo → AllIn lo hi l → AllIn lo' hi l
AllIn-mono lo lo' hi [] le h = tt
AllIn-mono lo lo' hi (a ∷ l) le h = (omega arith, h.1, AllIn-mono lo lo' hi l le h.2)

mutual
  pub InForest-le : (lo hi : ℕ) (ts : Trees) → InForest lo hi ts → lo ≤ hi
  InForest-le lo hi nil h = h
  InForest-le lo hi (more t ts) (mid, a, b) =
      omega (arith, root_bounds lo mid t a, InForest-le mid hi ts b)
  InForest-le lo hi (swapped t u) (mid, a, b) =
      omega (arith, root_bounds lo mid u a, root_bounds mid hi t b)

pub roots-AllIn : (lo hi : ℕ) (ts : Trees) → InForest lo hi ts → AllIn lo hi (roots ts)
roots-AllIn lo hi nil h = tt
roots-AllIn lo hi (more t ts) (mid, a, b) =
    let le = InForest-le mid hi ts b in
    let bounds = root_bounds lo mid t a in
    (
      omega arith,
      omega arith,
      AllIn-mono mid lo hi (roots ts) (omega arith) (roots-AllIn mid hi ts b),
    )
roots-AllIn lo hi (swapped t u) (mid, a, b) =
    let first_bounds = root_bounds mid hi t b in
    let second_bounds = root_bounds lo mid u a in
    (omega arith, omega arith, (omega arith, omega arith, tt))

mutual
  tree_widen : (lo lo' hi : ℕ) (t : Tree) → lo' ≤ lo → InTree lo hi t → InTree lo' hi t
  tree_widen lo lo' hi (node r ts) le (p, q, inl h) =
      (omega arith, q, inl (forest_widen lo lo' r ts le h))
  tree_widen lo lo' hi (node r ts) le (p, q, inr h) = (omega arith, q, inr h)

  forest_widen : (lo lo' hi : ℕ) (ts : Trees) → lo' ≤ lo → InForest lo hi ts → InForest lo' hi ts
  forest_widen lo lo' hi nil le h = omega arith
  forest_widen lo lo' hi (more t ts) le (mid, h, k) = (mid, tree_widen lo lo' mid t le h, k)
  forest_widen lo lo' hi (swapped t u) le (mid, h, k) = (mid, tree_widen lo lo' mid u le h, k)

pub InTree-widen : (lo lo' hi : ℕ) (t : Tree) → lo' ≤ lo → InTree lo hi t → InTree lo' hi t
InTree-widen lo lo' hi t le h = tree_widen lo lo' hi t le h
