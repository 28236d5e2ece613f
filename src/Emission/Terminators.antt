-- ===== src/Emission/Terminators.antt =====
-- The edges between the blocks of a method: the second pass of emitMethod.
use llvm2cpg.Prelude.{
  ℕ, ◌≡◌, ◌≢◌, refl, sym, ap, ◌∙◌, subst, Option, none, some, List, [], ◌∷◌, ◌++◌, append_assoc,
  ◌==◌, ==→eq, eq→==, ne→==, Bool-cases, inl, inr,
}
use mathlib.Core.Bool.{true≢false}
use mathlib.Core.Option.{some-injective, none-ne-some}
use llvm2cpg.Prelude.Each.{In, In-append, In-left, In-right}
use llvm2cpg.Graph.{Graph, cfg, connect, get_entry}
use llvm2cpg.Emitter.Block.{Terminator, returns, goes_to}
use llvm2cpg.Emitter.Method.{
  Emitted, entry_point, connect_found, connect_successor, connect_successors, connect_terminator,
  connect_terminators,
}
use llvm2cpg.Graph.{Node}
use llvm2cpg.Emission.Trees.{is_cfg, is_ast, is_argument, select}

-- The control flow that leaves a block: to the return node, or to the entry of the first node of
-- each successor that is a block of the method; the last first.
module _ (all : List Emitted) (return_node : ℕ) (entry : ℕ → ℕ) where
  abbrev to_block : ℕ → Option ℕ → List (ℕ × ℕ)
  to_block back none = []
  to_block back (some front) = (back, entry front) ∷ []

  abbrev to_blocks : ℕ → List ℕ → List (ℕ × ℕ)
  to_blocks back [] = []
  to_blocks back (a ∷ rest) = to_blocks back rest ++ to_block back (entry_point all a)

  abbrev leaving : ℕ → Terminator → List (ℕ × ℕ)
  leaving back returns = (back, return_node) ∷ []
  leaving back (goes_to successors) = to_blocks back successors

  abbrev pub all_leaving : List Emitted → List (ℕ × ℕ)
  all_leaving [] = []
  all_leaving (e ∷ rest) = all_leaving rest ++ leaving e.back e.terminator

-- From `g` to `g'` only control flow edges were added.
pub record Linked (g g' : Graph) (flow : List (ℕ × ℕ)) : Type 0 where
  pub nodes : g'.nodes ≡ g.nodes
  pub node_id : g'.node_id ≡ g.node_id
  pub flow_new : select is_cfg g'.edges ≡ flow ++ select is_cfg g.edges
  pub ast_same : select is_ast g'.edges ≡ select is_ast g.edges
  pub argument_same : select is_argument g'.edges ≡ select is_argument g.edges

pub Linked-then :
    {g g₁ g₂ : Graph} {l m : List (ℕ × ℕ)} → Linked g g₁ l → Linked g₁ g₂ m → Linked g g₂ (m ++ l)
Linked-then h k = record {
  nodes = k.nodes ∙ h.nodes;
  node_id = k.node_id ∙ h.node_id;
  flow_new = k.flow_new ∙ rw (h.flow_new, append_assoc) refl;
  ast_same = k.ast_same ∙ h.ast_same;
  argument_same = k.argument_same ∙ h.argument_same;
}

-- The same edges, written in another way.
pub Linked-as : {g g' : Graph} {l m : List (ℕ × ℕ)} → l ≡ m → Linked g g' l → Linked g g' m
Linked-as {g} {g'} e h = subst (λ z. Linked g g' z) e h

pub Linked-refl : (g : Graph) → Linked g g []
Linked-refl g = record {
  nodes = refl;
  node_id = refl;
  flow_new = refl;
  ast_same = refl;
  argument_same = refl;
}

pub Linked-connect : (a b : ℕ) (g : Graph) → Linked g (connect cfg a b g) ((a, b) ∷ [])
unfolding connect
Linked-connect a b g = record {
  nodes = refl;
  node_id = refl;
  flow_new = refl;
  ast_same = refl;
  argument_same = refl;
}

pub Linked-entry : {g g' : Graph} {l : List (ℕ × ℕ)} → Linked g g' l → get_entry g' ≡ get_entry g
unfolding get_entry
Linked-entry h = ap {B = ℕ → ℕ} (λ (f : ℕ → Node) j. (f j).entry) h.nodes

module _ (all : List Emitted) (return_node : ℕ) (entry : ℕ → ℕ) where
  abbrev Keeps : Graph → Type 0
  Keeps g = get_entry g ≡ entry

  found-Linked :
      (back : ℕ) (found : Option ℕ) (g : Graph)
      → Keeps g
      → Linked g (connect_found back found g) (to_block all return_node entry back found)
  unfolding connect_found
  found-Linked back none g k = Linked-refl g
  found-Linked back (some front) g k =
      Linked-as (ap (λ (f : ℕ → ℕ). (back, f front) ∷ []) k) (Linked-connect back _ g)

  successors-Linked :
      (back : ℕ) (l : List ℕ) (g : Graph)
      → Keeps g
      → Linked g (connect_successors all back l g) (to_blocks all return_node entry back l)
  unfolding connect_successors connect_successor
  successors-Linked back [] g k = Linked-refl g
  successors-Linked back (a ∷ rest) g k =
      let h = found-Linked back (entry_point all a) g k in
      Linked-then h (successors-Linked back rest _ (Linked-entry h ∙ k))

  terminator-Linked :
      (back : ℕ) (t : Terminator) (g : Graph)
      → Keeps g
      → Linked g
          (connect_terminator all return_node back t g)
          (leaving all return_node entry back t)
  unfolding connect_terminator
  terminator-Linked back returns g k = Linked-connect back return_node g
  terminator-Linked back (goes_to l) g k = successors-Linked back l g k

  terminators_Linked :
      (es : List Emitted) (g : Graph)
      → Keeps g
      → Linked g (connect_terminators all return_node es g) (all_leaving all return_node entry es)
  unfolding connect_terminators
  terminators_Linked [] g k = Linked-refl g
  terminators_Linked (e ∷ rest) g k =
      let h = terminator-Linked e.back e.terminator g k in
      Linked-then h (terminators_Linked rest _ (Linked-entry h ∙ k))

-- The first node of the block with an address: of the first such block.
pub data Front : List Emitted → ℕ → ℕ → Type 0 where
  here : (e : Emitted) (rest : List Emitted) (a : ℕ) → e.address ≡ a → Front (e ∷ rest) a e.front
  later :
      (e : Emitted) (rest : List Emitted) (a f : ℕ)
      → e.address ≢ a
      → Front rest a f
      → Front (e ∷ rest) a f

-- Control leaves a block of `es`: for the return node, or for where a successor is entered.
pub data Leaves (all : List Emitted) (return_node : ℕ) (entry : ℕ → ℕ) (es : List Emitted)
    : ℕ → ℕ → Type 0 where
  returning :
      (e : Emitted)
      → In e es
      → e.terminator ≡ returns
      → Leaves all return_node entry es e.back return_node
  going :
      (e : Emitted) (successors : List ℕ) (a f : ℕ)
      → In e es
      → e.terminator ≡ goes_to successors
      → In a successors
      → Front all a f
      → Leaves all return_node entry es e.back (entry f)

entry_point-Front : (es : List Emitted) (a f : ℕ) → entry_point es a ≡ some f → Front es a f
unfolding entry_point
entry_point-Front [] a f h = absurd (none-ne-some f h)
entry_point-Front (e ∷ es) a f h = elim (Bool-cases (e.address == a)) [
  | inl same ↦
      subst (Front (e ∷ es) a) (some-injective e.front f (rw same at h))
        (here e es a (==→eq e.address a same))
  | inr differ ↦
      later e es a f (λ k. true≢false (sym (eq→== e.address a k) ∙ differ))
        (entry_point-Front es a f (rw differ at h))
]

Front-entry_point : (es : List Emitted) (a f : ℕ) → Front es a f → entry_point es a ≡ some f
unfolding entry_point
Front-entry_point _ _ _ (here e rest a same) = rw (eq→== e.address a same) refl
Front-entry_point _ _ _ (later e rest a f differ h) =
    rw (ne→== e.address a differ) (Front-entry_point rest a f h)

module _ (all : List Emitted) (return_node : ℕ) (entry : ℕ → ℕ) where
  abbrev Goes : ℕ → List ℕ → ℕ → ℕ → Type 0
  Goes back l b t = (b ≡ back) × ((a : ℕ) × (f : ℕ) × In a l × Front all a f × (t ≡ entry f))

  to_block-Goes :
      (back a : ℕ) (rest : List ℕ) (found : Option ℕ) (b t : ℕ)
      → entry_point all a ≡ found
      → In (b, t) (to_block all return_node entry back found)
      → Goes back (a ∷ rest) b t
  to_block-Goes back a rest none b t e i = absurd i
  to_block-Goes back a rest (some f) b t e (inl h) = (
    ap (λ (p : ℕ × ℕ). p.0) h,
    (a, f, inl refl, entry_point-Front all a f e, ap (λ (p : ℕ × ℕ). p.1) h),
  )
  to_block-Goes back a rest (some f) b t e (inr i) = absurd i

  to_blocks-Goes :
      (back : ℕ) (l : List ℕ) (b t : ℕ)
      → In (b, t) (to_blocks all return_node entry back l)
      → Goes back l b t
  to_blocks-Goes back [] b t i = absurd i
  to_blocks-Goes back (a ∷ l) b t i =
      elim (In-append (b, t) (to_blocks all return_node entry back l) _ i) [
        | inl rest ↦
            let (same, (c, f, at, front, e)) = to_blocks-Goes back l b t rest in
            (same, (c, f, inr at, front, e))
        | inr this ↦ to_block-Goes back a l (entry_point all a) b t refl this
      ]

  Front-to_blocks :
      (back : ℕ) (l : List ℕ) (a f : ℕ)
      → In a l
      → Front all a f
      → In (back, entry f) (to_blocks all return_node entry back l)
  Front-to_blocks back [] a f i h = absurd i
  Front-to_blocks back (c ∷ l) a f (inl e) h =
      In-right (back, entry f) (to_blocks all return_node entry back l) _
        (subst (λ o. In (back, entry f) (to_block all return_node entry back o))
          (sym (ap (entry_point all) (sym e) ∙ Front-entry_point all a f h)) (inl refl))
  Front-to_blocks back (c ∷ l) a f (inr i) h =
      In-left (back, entry f) (to_blocks all return_node entry back l) _
        (Front-to_blocks back l a f i h)

  abbrev LeavesFrom : List Emitted → ℕ → ℕ → Type 0
  LeavesFrom es b t = Leaves all return_node entry es b t

  more : (e : Emitted) (es : List Emitted) (b t : ℕ) → LeavesFrom es b t → LeavesFrom (e ∷ es) b t
  more e es _ _ (returning d i r) = returning d (inr i) r
  more e es _ _ (going d l a f i g at h) = going d l a f (inr i) g at h

  leaving-Leaves :
      (e : Emitted) (es : List Emitted) (terminator : Terminator) (b t : ℕ)
      → e.terminator ≡ terminator
      → In (b, t) (leaving all return_node entry e.back terminator)
      → LeavesFrom (e ∷ es) b t
  leaving-Leaves e es returns b t k (inl h) =
      subst (λ (p : ℕ × ℕ). LeavesFrom (e ∷ es) p.0 p.1) (sym h) (returning e (inl refl) k)
  leaving-Leaves e es returns b t k (inr i) = absurd i
  leaving-Leaves e es (goes_to l) b t k i =
      let (same, (a, f, at, front, h)) = to_blocks-Goes e.back l b t i in
      rw (same, h) (going e l a f (inl refl) k at front)

  all-Leaves :
      (es : List Emitted) (b t : ℕ)
      → In (b, t) (all_leaving all return_node entry es)
      → LeavesFrom es b t
  all-Leaves [] b t i = absurd i
  all-Leaves (e ∷ es) b t i = elim (In-append (b, t) (all_leaving all return_node entry es) _ i) [
    | inl rest ↦ more e es b t (all-Leaves es b t rest)
    | inr this ↦ leaving-Leaves e es e.terminator b t refl this
  ]

  In-leaving :
      (e : Emitted) (es : List Emitted) (b t : ℕ)
      → In e es
      → In (b, t) (leaving all return_node entry e.back e.terminator)
      → In (b, t) (all_leaving all return_node entry es)
  In-leaving e [] b t i h = absurd i
  In-leaving e (d ∷ es) b t (inl same) h =
      In-right (b, t) (all_leaving all return_node entry es) _
        (subst (λ (z : Emitted). In (b, t) (leaving all return_node entry z.back z.terminator)) same
          h)
  In-leaving e (d ∷ es) b t (inr i) h =
      In-left (b, t) (all_leaving all return_node entry es) _ (In-leaving e es b t i h)

  Leaves-all :
      (es : List Emitted) (b t : ℕ)
      → LeavesFrom es b t
      → In (b, t) (all_leaving all return_node entry es)
  Leaves-all es _ _ (returning e i k) = In-leaving e es e.back return_node i (
      subst (λ z. In (e.back, return_node) (leaving all return_node entry e.back z)) (sym k)
        (inl refl))
  Leaves-all es _ _ (going e l a f i k at h) = In-leaving e es e.back (entry f) i (
      subst (λ z. In (e.back, entry f) (leaving all return_node entry e.back z)) (sym k)
        (Front-to_blocks e.back l a f at h))

-- The listed pairs are those by which control leaves a block.
abbrev pub Exactly : List Emitted → ℕ → (ℕ → ℕ) → List Emitted → List (ℕ × ℕ) → Type 0
Exactly all return_node entry es flow =
    (b t : ℕ)
    → (In (b, t) flow → Leaves all return_node entry es b t)
      × (Leaves all return_node entry es b t → In (b, t) flow)

pub leaving-Exactly :
    (all es : List Emitted) (return_node : ℕ) (entry : ℕ → ℕ)
    → Exactly all return_node entry es (all_leaving all return_node entry es)
leaving-Exactly all es return_node entry b t =
    (all-Leaves all return_node entry es b t, Leaves-all all return_node entry es b t)

-- The second pass over the blocks changes no node, no AST edge and no argument edge, and adds
-- control flow edges that are exactly these: from the last node of each block that returns to
-- the return node, and from the last node of each other block, for each of its successors, to
-- the entry of the first node of the first block with the address of the successor.
pub terminators-Linked :
    (all es : List Emitted) (return_node : ℕ) (g : Graph)
    → Linked g
        (connect_terminators all return_node es g)
        (all_leaving all return_node (get_entry g) es)
      × Exactly all return_node (get_entry g) es (all_leaving all return_node (get_entry g) es)
terminators-Linked all es return_node g = (
  terminators_Linked all return_node (get_entry g) es g refl,
  leaving-Exactly all es return_node (get_entry g),
)
