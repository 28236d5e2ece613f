-- ===== src/Emission/Distinct.antt =====
-- The keys of a tree lie in the interval of its emission, each once.
use llvm2cpg.Prelude.{ℕ, suc, ◌≤◌, ◌<◌, ◌⊎◌, inl, inr, List, [], ◌∷◌, ◌++◌, arith}
use llvm2cpg.Prelude.Keys.{Distinct, AllIn, Apart, Apart-above, Apart-below}
use llvm2cpg.Emission.Trees.{Tree, Trees, node, nil, more, swapped, post_order, post_orders}
use llvm2cpg.Emission.Layout.{InTree, InForest, InForest-le, root_bounds}

AllIn-widen :
    {lo hi lo' hi' : ℕ} (l : List ℕ) → lo' ≤ lo → hi ≤ hi' → AllIn lo hi l → AllIn lo' hi' l
AllIn-widen [] p q h = tt
AllIn-widen (a ∷ l) p q h = (omega arith, omega arith, AllIn-widen l p q h.2)

AllIn-append : (lo hi : ℕ) (l m : List ℕ) → AllIn lo hi l → AllIn lo hi m → AllIn lo hi (l ++ m)
AllIn-append lo hi [] m h k = k
AllIn-append lo hi (a ∷ l) m h k = (h.0, h.1, AllIn-append lo hi l m h.2 k)

Apart-append : (j : ℕ) (l m : List ℕ) → Apart j l → Apart j m → Apart j (l ++ m)
Apart-append j [] m h k = k
Apart-append j (a ∷ l) m h k = (h.0, Apart-append j l m h.1 k)

-- Two intervals beside each other.
module _ (a b c d : ℕ) where
  Apart-beside : (x : ℕ) (m : List ℕ) → a ≤ x → x < b → AllIn c d m → (b ≤ c) ⊎ (d ≤ a) → Apart x m
  Apart-beside x m p q k (inl le) = Apart-below c d x m k (omega arith)
  Apart-beside x m p q k (inr le) = Apart-above c d x m k (omega arith)

  Distinct-append :
      (l m : List ℕ)
      → AllIn a b l
      → AllIn c d m
      → (b ≤ c) ⊎ (d ≤ a)
      → Distinct l
      → Distinct m
      → Distinct (l ++ m)
  Distinct-append [] m h k side p q = q
  Distinct-append (x ∷ l) m h k side p q = (
    Apart-append x l m p.0 (Apart-beside x m h.0 h.1 k side),
    Distinct-append l m h.2 k side p.1 q,
  )

-- The keys of a part, with their interval.
abbrev Spread : ℕ → ℕ → List ℕ → Type 0
Spread lo hi l = AllIn lo hi l × Distinct l

Spread-append :
    {lo hi : ℕ} {a b c d : ℕ} (l m : List ℕ)
    → Spread a b l
    → Spread c d m
    → (b ≤ c) ⊎ (d ≤ a)
    → lo ≤ a
    → lo ≤ c
    → b ≤ hi
    → d ≤ hi
    → Spread lo hi (l ++ m)
Spread-append {lo} {hi} {a} {b} {c} {d} l m h k side p q r s = (
  AllIn-append lo hi l m (AllIn-widen l p r h.0) (AllIn-widen m q s k.0),
  Distinct-append a b c d l m h.0 k.0 side h.1 k.1,
)

one_Spread : (r : ℕ) → Spread r (suc r) (r ∷ [])
one_Spread r = ((omega arith, omega arith, tt), (tt, tt))

mutual
  unfolding post_order post_orders

  tree_Spread : (lo hi : ℕ) (t : Tree) → InTree lo hi t → Spread lo hi (post_order t)
  tree_Spread lo hi (node r ts) (p, q, inl h) =
      Spread-append (post_orders ts) (r ∷ []) (forest_Spread lo r ts h) (one_Spread r)
        (inl (omega arith)) (omega arith) p (omega arith) (omega arith)
  tree_Spread lo hi (node r ts) (p, q, inr h) =
      Spread-append (post_orders ts) (r ∷ []) (forest_Spread (suc r) hi ts h) (one_Spread r)
        (inr (omega arith)) (omega arith) p (omega arith) (omega arith)

  forest_Spread : (lo hi : ℕ) (ts : Trees) → InForest lo hi ts → Spread lo hi (post_orders ts)
  forest_Spread lo hi nil h = (tt, tt)
  forest_Spread lo hi (more t ts) (mid, h, k) =
      Spread-append (post_order t) (post_orders ts) (tree_Spread lo mid t h)
        (forest_Spread mid hi ts k) (inl (omega arith)) (omega arith)
        (omega (arith, root_bounds lo mid t h)) (omega (arith, InForest-le mid hi ts k))
        (omega arith)
  forest_Spread lo hi (swapped t u) (mid, h, k) =
      Spread-append (post_order t) (post_order u) (tree_Spread mid hi t k) (tree_Spread lo mid u h)
        (inr (omega arith)) (omega (arith, root_bounds lo mid u h)) (omega arith) (omega arith)
        (omega (arith, root_bounds mid hi t k))

pub post_order-AllIn : (lo hi : ℕ) (t : Tree) → InTree lo hi t → AllIn lo hi (post_order t)
post_order-AllIn lo hi t h = (tree_Spread lo hi t h).0

pub post_order-Distinct : (lo hi : ℕ) (t : Tree) → InTree lo hi t → Distinct (post_order t)
post_order-Distinct lo hi t h = (tree_Spread lo hi t h).1

pub post_orders-AllIn : (lo hi : ℕ) (ts : Trees) → InForest lo hi ts → AllIn lo hi (post_orders ts)
post_orders-AllIn lo hi ts h = (forest_Spread lo hi ts h).0

pub post_orders-Distinct : (lo hi : ℕ) (ts : Trees) → InForest lo hi ts → Distinct (post_orders ts)
post_orders-Distinct lo hi ts h = (forest_Spread lo hi ts h).1
