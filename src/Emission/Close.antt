-- ===== src/Emission/Close.antt =====
-- From the operands of an operation to the operation: the node of the operation is made after them
-- or before them, and resolveConnections joins it to them.
use llvm2cpg.Prelude.{
  ℕ, suc, ◌<◌, ◌≡◌, ◌≢◌, refl, sym, ap, ◌∙◌, subst, List, [], ◌∷◌, ◌++◌, inl, inr, arith,
  append_assoc,
}
use llvm2cpg.Prelude.Keys.{AllIn, Apart, Apart-above, Apart-below}
use llvm2cpg.Graph.{Graph, Property, receiver, get_entry, set_properties, connect}
use llvm2cpg.Emitter.Connections.{resolved}
use llvm2cpg.Emission.Trees.{
  Trees, node, nil, more, swapped, roots, first, cfg_edges, cfg_forest, child_edges, child_forest,
  is_cfg, is_ast, is_argument, select,
}
use llvm2cpg.Emission.Layout.{InTree, roots-AllIn, InForest, InForest-le}
use llvm2cpg.Emission.Resolve.{
  resolved-node_id, resolved-cfg, resolved-ast, resolved-argument, resolved-code, resolved-entry,
  resolved-frame,
}
use llvm2cpg.Emission.Forest.{
  HasCode, Emits, EmitsAll, EmitsAll-nil, IsReady-frame, Ready, own-ends, entry-ends,
}
use llvm2cpg.Emission.Opening.{
  Opened, Touched, Touched-refl, HasCode-frame, set_properties-Touched, set_properties-HasCode,
}

-- The children and the parent are there, and only resolveConnections is missing.
record Pending (g g' : Graph) (p : ℕ) (ts : Trees) : Type 0 where
  flow : select is_cfg g'.edges ≡ cfg_forest ts ++ select is_cfg g.edges
  children : select is_ast g'.edges ≡ child_forest ts ++ select is_ast g.edges
  arguments : select is_argument g'.edges ≡ child_forest ts ++ select is_argument g.edges
  ready : Ready g' ts
  code : HasCode g' p
  within : InTree g.node_id g'.node_id (node p ts)
  apart : Apart p (roots ts)
  below : (j : ℕ) → j < g.node_id → Apart j (roots ts)
  frame : (j : ℕ) → j < g.node_id → g'.nodes j ≡ g.nodes j

close :
    (g g' : Graph) (p : ℕ) (ts : Trees) → Pending g g' p ts → Emits g (resolved p (roots ts) g') p
unfolding cfg_edges child_edges first
close g g' p ts h = record {
  tree = node p ts;
  root_eq = refl;
  flow = resolved-cfg p (roots ts) g' h.apart ∙ rw (own-ends g' p ts h.ready, h.flow, append_assoc);
  children = resolved-ast p (roots ts) g' ∙ rw (h.children, append_assoc);
  arguments = resolved-argument p (roots ts) g' ∙ rw (h.arguments, append_assoc);
  entry = resolved-entry p (roots ts) g' ∙ entry-ends g' p ts h.ready;
  code = (h.code.0, resolved-code p (roots ts) g' p ∙ h.code.1);
  within = rw (resolved-node_id p (roots ts) g') h.within;
  frame = λ j lt.
      resolved-frame p (roots ts) g' j (λ e. absurd (omega (arith, h.within.0))) (h.below j lt)
      ∙ h.frame j lt;
}

abbrev Kept : Graph → Graph → List ℕ → Type 0
Kept g g' [] = Unit {0}
Kept g g' (a ∷ l) = (g'.nodes a ≡ g.nodes a) × Kept g g' l

Kept-below :
    (g g' : Graph) (lo hi : ℕ) (l : List ℕ)
    → ((j : ℕ) → j < hi → g'.nodes j ≡ g.nodes j)
    → AllIn lo hi l
    → Kept g g' l
Kept-below g g' lo hi [] same h = tt
Kept-below g g' lo hi (a ∷ l) same h = (same a h.1, Kept-below g g' lo hi l same h.2)

Kept-Apart :
    (g g' : Graph) (p : ℕ) (l : List ℕ)
    → ((j : ℕ) → p ≢ j → g'.nodes j ≡ g.nodes j)
    → Apart p l
    → Kept g g' l
Kept-Apart g g' p [] same h = tt
Kept-Apart g g' p (a ∷ l) same h = (same a h.0, Kept-Apart g g' p l same h.1)

Ready-Kept : (g g' : Graph) (ts : Trees) → Kept g g' (roots ts) → Ready g ts → Ready g' ts
Ready-Kept g g' nil k h = tt
Ready-Kept g g' (more t ts) k h = (IsReady-frame g g' t k.0 h.0, Ready-Kept g g' ts k.1 h.1)
Ready-Kept g g' (swapped t u) k h = (IsReady-frame g g' t k.0 h.0, IsReady-frame g g' u k.1.0 h.1)

-- The node of the operation is made after the operands.
pub close_last :
    {g g₁ g₂ : Graph} {p : ℕ} {rs : List ℕ}
    → EmitsAll g g₁ rs
    → Opened g₁ g₂ p
    → HasCode g₂ p
    → Emits g (resolved p rs g₂) p
close_last {g} {g₁} {g₂} {p} k o c =
    subst (λ l. Emits g (resolved p l g₂) p) k.roots_eq (close g g₂ p k.trees pending)
  where
    bounds : AllIn g.node_id g₁.node_id (roots k.trees)
    bounds = roots-AllIn g.node_id g₁.node_id k.trees k.within

    within : InTree g.node_id g₂.node_id (node p k.trees)
    within =
        let le = InForest-le g.node_id g₁.node_id k.trees k.within in
        (
          omega (arith, o.key),
          omega (arith, o.key, o.next),
          inl (subst (λ q. InForest g.node_id q k.trees) (sym o.key) k.within),
        )

    pending : Pending g g₂ p k.trees
    pending = record {
      flow = o.flow ∙ k.flow;
      children = o.children ∙ k.children;
      arguments = o.arguments ∙ k.arguments;
      ready =
          Ready-Kept g₁ g₂ k.trees
            (Kept-below g₁ g₂ g.node_id g₁.node_id (roots k.trees) o.frame bounds) k.ready;
      code = c;
      within = within;
      apart = Apart-above g.node_id g₁.node_id p (roots k.trees) bounds (omega (arith, o.key));
      below = λ j lt. Apart-below g.node_id g₁.node_id j (roots k.trees) bounds lt;
      frame = λ j lt.
          o.frame j (omega (arith, InForest-le g.node_id g₁.node_id k.trees k.within))
          ∙ k.frame j lt;
    }

-- The node of the operation is made before the operands, and is given its code after them.
pub close_first :
    {g g₀ g₁ g₂ : Graph} {p : ℕ} {rs : List ℕ}
    → Opened g g₀ p
    → EmitsAll g₀ g₁ rs
    → Touched g₁ g₂ p
    → HasCode g₂ p
    → Emits g (resolved p rs g₂) p
close_first {g} {g₀} {g₁} {g₂} {p} o k t c =
    subst (λ l. Emits g (resolved p l g₂) p) k.roots_eq (close g g₂ p k.trees pending)
  where
    bounds : AllIn g₀.node_id g₁.node_id (roots k.trees)
    bounds = roots-AllIn g₀.node_id g₁.node_id k.trees k.within

    apart : Apart p (roots k.trees)
    apart =
        Apart-below g₀.node_id g₁.node_id p (roots k.trees) bounds (omega (arith, o.key, o.next))

    in_interval : InForest (suc p) g₂.node_id k.trees
    in_interval =
        subst (λ q. InForest (suc p) q k.trees) (sym t.next)
          (subst (λ q. InForest q g₁.node_id k.trees) (o.next ∙ ap suc (sym o.key)) k.within)

    within : InTree g.node_id g₂.node_id (node p k.trees)
    within =
        let le = InForest-le g₀.node_id g₁.node_id k.trees k.within in
        (omega (arith, o.key), omega (arith, o.key, o.next, t.next), inr in_interval)

    pending : Pending g g₂ p k.trees
    pending = record {
      flow = t.flow ∙ k.flow ∙ ap (λ z. cfg_forest k.trees ++ z) o.flow;
      children = t.children ∙ k.children ∙ ap (λ z. child_forest k.trees ++ z) o.children;
      arguments = t.arguments ∙ k.arguments ∙ ap (λ z. child_forest k.trees ++ z) o.arguments;
      ready = Ready-Kept g₁ g₂ k.trees (Kept-Apart g₁ g₂ p (roots k.trees) t.frame apart) k.ready;
      code = c;
      within = within;
      apart = apart;
      below = λ j lt.
          Apart-below g₀.node_id g₁.node_id j (roots k.trees) bounds (omega (arith, o.next));
      frame = λ j lt.
          t.frame j (λ e. absurd (omega (arith, o.key, e)))
          ∙ k.frame j (omega (arith, o.next))
          ∙ o.frame j lt;
    }

-- A node without operands.
pub close_leaf :
    {g g₁ : Graph} {p : ℕ} → Opened g g₁ p → HasCode g₁ p → Emits g (resolved p [] g₁) p
close_leaf {g} o c = close_last (EmitsAll-nil g) o c

-- The same when the code was set before the operands and nothing is set after them.
pub close_early :
    {g g₀ g₁ : Graph} {p : ℕ} {rs : List ℕ}
    → Opened g g₀ p
    → HasCode g₀ p
    → EmitsAll g₀ g₁ rs
    → Emits g (resolved p rs g₁) p
close_early {g} {g₀} {g₁} {p} o c k =
    close_first o k (Touched-refl g₁ p)
      (HasCode-frame g₀ g₁ p (k.frame p (omega (arith, o.key, o.next))) c)

-- The same when properties are set after them.
pub close_early_set :
    {g g₀ g₁ : Graph} {p : ℕ} {rs : List ℕ} (qs : List Property)
    → Opened g g₀ p
    → HasCode g₀ p
    → EmitsAll g₀ g₁ rs
    → Emits g (resolved p rs (set_properties p qs g₁)) p
close_early_set {g} {g₀} {g₁} {p} qs o c k = close_first o k (set_properties-Touched p qs g₁) (
    set_properties-HasCode p qs g₁ p
      (HasCode-frame g₀ g₁ p (k.frame p (omega (arith, o.key, o.next))) c))

-- An edge of another kind may be added on the way.
pub connect-Emits :
    {g g' : Graph} {r : ℕ} (p q : ℕ) → Emits g g' r → Emits g (connect receiver p q g') r
unfolding connect get_entry
connect-Emits p q h = record {
  tree = h.tree;
  root_eq = h.root_eq;
  flow = h.flow;
  children = h.children;
  arguments = h.arguments;
  entry = h.entry;
  code = h.code;
  within = h.within;
  frame = h.frame;
}
