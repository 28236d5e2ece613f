-- ===== src/Emission/Bodies.antt =====
-- The blocks of a method, one after the other, and the edges between them.
use llvm2cpg.Prelude.{
  ◌<◌, sym, subst, ap, ℕ, suc, ◌+◌, ◌≡◌, refl, ◌∙◌, Option, none, some, List, [], ◌∷◌, arith,
  length,
}
use llvm2cpg.Graph.{Graph}
use llvm2cpg.Emitter.State.{Emitter}
use llvm2cpg.Emitter.Block.{
  emit_block, Instruction, Block, collect, next_order, emit_instruction, emit_instructions,
}
use llvm2cpg.Emitter.Method.{Emitted, emit_blocks}
use llvm2cpg.Graph.{Node, get_entry}
use llvm2cpg.Emission.Order.{Begins}
use llvm2cpg.Emission.Handler.{Outcome}
use llvm2cpg.Emission.Layout.{root_bounds}
use llvm2cpg.Emission.Blocks.{
  Placed, AllPlaced, instruction-Outcome, instruction-AllPlaced, instructions-EmitsAll,
}
use llvm2cpg.Emission.Joined.{Joined, block-Joined}

-- The running order counts the nodes.
next-length :
    (found : Option ℕ) (nodes : List ℕ) (n : ℕ)
    → next_order found n + length nodes ≡ n + length (collect found nodes)
unfolding next_order collect
next-length none nodes n = refl
next-length (some a) nodes n = omega arith

-- The nodes have the orders from `n` on, one after the other.
abbrev pub InOrder : ℕ → Graph → List ℕ → Type 0
InOrder n g [] = Unit
InOrder n g (a ∷ nodes) = Placed n g a × InOrder (suc n) g nodes

collect-InOrder :
    (found : Option ℕ) (nodes : List ℕ) (n : ℕ) (g g₁ g₂ : Graph)
    → Outcome g g₁ found
    → AllPlaced n g₁ found
    → ((j : ℕ) → j < g₁.node_id → g₂.nodes j ≡ g₁.nodes j)
    → InOrder (next_order found n) g₂ nodes
    → InOrder n g₂ (collect found nodes)
unfolding next_order collect
collect-InOrder none nodes n g g₁ g₂ h at frame k = k
collect-InOrder (some a) nodes n g g₁ g₂ h at frame k = (
  (
    at.0,
    ap (λ (z : Node). z.properties)
          (frame a (omega (arith, root_bounds g.node_id g₁.node_id h.tree h.within, h.root_eq)))
        ∙ at.1,
  ),
  k,
)

-- In the graph after the instructions of a block, the nodes that they made have the orders and
-- argument indices from the given order on, one after the other, set last; and the running
-- order afterwards is the order before them plus their number.
pub order-instructions :
    (xs : List Instruction) (n : ℕ) (s : Emitter)
    → let ((nodes, last_order), s₁) = emit_instructions n xs s in
      InOrder n s₁.graph nodes × (last_order ≡ n + length nodes)
unfolding emit_instructions
order-instructions [] n s = (tt, omega arith)
order-instructions (x ∷ xs) n s =
    let (found, s₁) = emit_instruction n x s in
    let rest = order-instructions xs (next_order found n) s₁ in
    let all = instructions-EmitsAll (next_order found n) xs s₁ in
    (
      collect-InOrder found _ n s.graph s₁.graph _ (instruction-Outcome n x s)
          (instruction-AllPlaced n x s) all.frame rest.0,
      rest.1 ∙ next-length found _ n,
    )

-- Each block is joined to the graph that the ones before it left; in the last graph its path still
-- begins with the entry of its first node.
abbrev pub Bodies : ℕ → Graph → Graph → List Block → List Emitted → Type 0
Bodies owner g g' [] [] = g' ≡ g
Bodies owner g g' (b ∷ bs) (e ∷ es) =
    (e.address ≡ b.address)
    × (e.terminator ≡ b.terminator)
    × ((g₁ : Graph) × (j : Joined owner g g₁ e.front e.back) × Begins j.path (get_entry g' e.front)
        × Bodies owner g₁ g' bs es)
Bodies owner g g' _ _ = ⊥

Bodies-frame :
    (owner : ℕ) (g g' : Graph) (bs : List Block) (es : List Emitted)
    → Bodies owner g g' bs es
    → (j : ℕ) → j < g.node_id
    → g'.nodes j ≡ g.nodes j
Bodies-frame owner g g' [] [] h j lt = ap (λ (z : Graph). z.nodes j) h
Bodies-frame owner g g' [] (e ∷ es) h j lt = elim h [ ]
Bodies-frame owner g g' (b ∷ bs) [] h j lt = elim h [ ]
Bodies-frame owner g g' (b ∷ bs) (e ∷ es) (_, _, (g₁, k, _, rest)) j lt =
    Bodies-frame owner g₁ g' bs es rest j (omega (arith, k.grows)) ∙ k.frame j lt

-- What comes after a block leaves the beginning of its path.
Begins-later :
    {owner : ℕ} {g g₁ : Graph} (g' : Graph) {front back : ℕ} (k : Joined owner g g₁ front back)
    → g'.nodes front ≡ g₁.nodes front
    → Begins k.path (get_entry g' front)
unfolding get_entry
Begins-later g' k e = subst (λ n. Begins k.path n) (sym (ap (λ (n : Node). n.entry) e)) k.begins

-- Emitting the blocks of a method gives, block by block and in order, one record with the
-- address and the terminator of the block, and joins each block to the graph that the blocks
-- before it left, in the sense of block-Joined. In the graph after all of them the path of each
-- block still begins with the entry of its first node.
pub blocks-Bodies :
    (owner : ℕ) (bs : List Block) (n : ℕ) (s : Emitter)
    → let (emitted, s₁) = emit_blocks owner n bs s in Bodies owner s.graph s₁.graph bs emitted
unfolding emit_blocks
blocks-Bodies owner [] n s = refl
blocks-Bodies owner (b ∷ bs) n s =
    let ((front, back, last_order), s₁) = emit_block owner n b s in
    let (emitted, s₂) = emit_blocks owner last_order bs s₁ in
    let k = block-Joined owner n b s in
    let rest = blocks-Bodies owner bs last_order s₁ in
    (
      refl,
      refl,
      (
        s₁.graph,
        k,
        Begins-later s₂.graph k
            (Bodies-frame owner s₁.graph s₂.graph bs emitted rest front k.front_new),
        rest,
      ),
    )
