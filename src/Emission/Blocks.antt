-- ===== src/Emission/Blocks.antt =====
-- A basic block: its instructions become a forest, which the block joins to one path of control.
use llvm2cpg.Prelude.{
  ℕ, ◌≡◌, refl, ◌∙◌, subst, Bool, true, false, Option, none, some, List, [], ◌∷◌, ◌++◌, arith,
}
use llvm2cpg.Graph.{Graph, Property, set_properties, order, argument_index}
use llvm2cpg.Emitter.Visit.{visit}
use llvm2cpg.Emitter.State.{Emitter, update_line_info}
use llvm2cpg.Emitter.Block.{
  Instruction, Block, set_order_and_index, place, emit_unless_inlined, emit_instruction, collect,
  next_order, emit_instructions, or_noop,
}
use mathlib.Core.List.{cons≢nil}
use llvm2cpg.Emission.Trees.{Trees, nil, more, swapped, roots, cfg_forest, child_forest}
use llvm2cpg.Emission.Layout.{root_bounds, InForest-le, InTree-widen}
use llvm2cpg.Emission.Edges.{set_properties-entry}
use llvm2cpg.Emission.Forest.{Emits, EmitsAll, EmitsAll-nil, EmitsAll-more}
use llvm2cpg.Emission.Opening.{set_properties-Touched, set_properties-HasCode}
use llvm2cpg.Emission.Leaves.{noop-Emits}
use llvm2cpg.Emission.Handler.{Outcome, visit-Outcome}

-- The properties of the new root may be extended.
set_properties-Emits :
    (ps : List Property) {g g' : Graph} {r : ℕ} → Emits g g' r → Emits g (set_properties r ps g') r
set_properties-Emits ps {g} {g'} {r} h =
    let t = set_properties-Touched r ps g' in
    record {
      tree = h.tree;
      root_eq = h.root_eq;
      flow = t.flow ∙ h.flow;
      children = t.children ∙ h.children;
      arguments = t.arguments ∙ h.arguments;
      entry = set_properties-entry r r ps g' ∙ h.entry;
      code = set_properties-HasCode r ps g' r h.code;
      within = rw t.next h.within;
      frame = λ j lt.
          t.frame j (λ e.
            absurd (omega (arith, root_bounds g.node_id g'.node_id h.tree h.within, h.root_eq, e)))
          ∙ h.frame j lt;
    }

place-Outcome :
    (n : ℕ) (g : Graph) (found : Option ℕ) (s : Emitter)
    → Outcome g s.graph found
    → Outcome g (place n found s).1.graph (place n found s).0
unfolding place set_order_and_index
place-Outcome n g none s h = h
place-Outcome n g (some node) s h = set_properties-Emits _ h

unless_inlined-Outcome :
    (b : Bool) (n : ℕ) (x : Instruction) (s : Emitter)
    → Outcome s.graph (emit_unless_inlined b n x s).1.graph (emit_unless_inlined b n x s).0
unfolding emit_unless_inlined
unless_inlined-Outcome true n x s = refl
unless_inlined-Outcome false n x s =
    place-Outcome n s.graph _ _ (visit-Outcome x.info x.marks x.instr s)

line-graph : (at : Option (ℕ × ℕ)) (s : Emitter) → (update_line_info at s).1.graph ≡ s.graph
unfolding update_line_info
line-graph none s = refl
line-graph (some p) s = refl

pub instruction-Outcome :
    (n : ℕ) (x : Instruction) (s : Emitter)
    → Outcome s.graph (emit_instruction n x s).1.graph (emit_instruction n x s).0
unfolding emit_instruction
instruction-Outcome n x s =
    let s₁ = (update_line_info x.marks.debug_loc s).1 in
    subst
      (λ g.
        Outcome g (emit_unless_inlined x.marks.inline n x s₁).1.graph
          (emit_unless_inlined x.marks.inline n x s₁).0)
      (line-graph x.marks.debug_loc s) (unless_inlined-Outcome x.marks.inline n x s₁)

-- The node has the order and the index `n`, set last.
abbrev pub Placed : ℕ → Graph → ℕ → Type 0
Placed n g a =
    (before : List Property) × ((g.nodes a).properties
      ≡ before ++ (order n ∷ argument_index n ∷ []))

abbrev pub AllPlaced : ℕ → Graph → Option ℕ → Type 0
AllPlaced n g none = Unit
AllPlaced n g (some a) = Placed n g a

place-AllPlaced :
    (n : ℕ) (found : Option ℕ) (s : Emitter)
    → AllPlaced n (place n found s).1.graph (place n found s).0
unfolding place set_order_and_index set_properties
place-AllPlaced n none s = tt
place-AllPlaced n (some a) s = ((s.graph.nodes a).properties, ground arith)

unless_inlined-AllPlaced :
    (b : Bool) (n : ℕ) (x : Instruction) (s : Emitter)
    → AllPlaced n (emit_unless_inlined b n x s).1.graph (emit_unless_inlined b n x s).0
unfolding emit_unless_inlined
unless_inlined-AllPlaced true n x s = tt
unless_inlined-AllPlaced false n x s =
    let (found, s₁) = visit x.info x.marks x.instr s in place-AllPlaced n found s₁

pub instruction-AllPlaced :
    (n : ℕ) (x : Instruction) (s : Emitter)
    → AllPlaced n (emit_instruction n x s).1.graph (emit_instruction n x s).0
unfolding emit_instruction
instruction-AllPlaced n x s =
    unless_inlined-AllPlaced x.marks.inline n x (update_line_info x.marks.debug_loc s).1

-- An instruction before a forest.
collect-EmitsAll :
    (g g₁ g₂ : Graph) (found : Option ℕ) (nodes : List ℕ)
    → Outcome g g₁ found
    → EmitsAll g₁ g₂ nodes
    → EmitsAll g g₂ (collect found nodes)
unfolding collect
collect-EmitsAll g g₁ g₂ none nodes h k = subst (λ z. EmitsAll z g₂ nodes) h k
collect-EmitsAll g g₁ g₂ (some node) nodes h k = EmitsAll-more h k

pub instructions-EmitsAll :
    (n : ℕ) (xs : List Instruction) (s : Emitter)
    → EmitsAll s.graph (emit_instructions n xs s).1.graph (emit_instructions n xs s).0.0
unfolding emit_instructions
instructions-EmitsAll n [] s = EmitsAll-nil s.graph
instructions-EmitsAll n (x ∷ xs) s =
    collect-EmitsAll _ _ _ _ _ (instruction-Outcome n x s)
      (instructions-EmitsAll (next_order (emit_instruction n x s).0 n) xs _)

no_edges : (ts : Trees) → roots ts ≡ [] → (cfg_forest ts ≡ []) × (child_forest ts ≡ [])
unfolding cfg_forest child_forest
no_edges nil e = (refl, refl)
no_edges (more t ts) e = absurd (cons≢nil e)
no_edges (swapped t u) e = absurd (cons≢nil e)

-- A tree after no tree.
after_none : {g g₁ g₂ : Graph} {r : ℕ} → EmitsAll g g₁ [] → Emits g₁ g₂ r → Emits g g₂ r
after_none {g} {g₁} {g₂} k h =
    let none_left = no_edges k.trees k.roots_eq in
    let le = InForest-le g.node_id g₁.node_id k.trees k.within in
    record {
      tree = h.tree;
      root_eq = h.root_eq;
      flow = h.flow ∙ rw (k.flow, none_left.0) refl;
      children = h.children ∙ rw (k.children, none_left.1) refl;
      arguments = h.arguments ∙ rw (k.arguments, none_left.1) refl;
      entry = h.entry;
      code = h.code;
      within = InTree-widen g₁.node_id g.node_id g₂.node_id h.tree le h.within;
      frame = λ j lt. h.frame j (omega arith) ∙ k.frame j lt;
    }

or_noop-EmitsAll :
    (g : Graph) (nodes : List ℕ) (n : ℕ) (s : Emitter)
    → EmitsAll g s.graph nodes
    → let ((front, rest, k), s₁) = or_noop (nodes, n) s in EmitsAll g s₁.graph (front ∷ rest)
unfolding or_noop set_order_and_index
or_noop-EmitsAll g [] n s h =
    EmitsAll-more (after_none h (set_properties-Emits _ (noop-Emits.at s))) (EmitsAll-nil _)
or_noop-EmitsAll g (a ∷ nodes) n s h = h

-- The nodes of a block before it joins them.
pub collected-EmitsAll :
    (n : ℕ) (b : Block) (s : Emitter)
    → let (collected, s₁) = emit_instructions n b.instructions s in
      let ((front, rest, k), s₂) = or_noop collected s₁ in EmitsAll s.graph s₂.graph (front ∷ rest)
collected-EmitsAll n b s = or_noop-EmitsAll s.graph _ _ _ (instructions-EmitsAll n b.instructions s)
