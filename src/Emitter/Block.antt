-- ===== src/Emitter/Block.antt =====
-- The loop of emitMethod over a basic block: its nodes, their order, and its edges.
use llvm2cpg.Prelude.{ℕ, suc, Bool, true, false, Option, none, some, List, [], ◌∷◌}
use llvm2cpg.Graph.{Graph, ast, order, argument_index, connect}
use llvm2cpg.Values.{Info, Marks, Instr}
use llvm2cpg.Emitter.State.{M, pure, modify, set, ◌>>=◌, ◌>>◌, update_line_info, emit_noop}
use llvm2cpg.Emitter.Connections.{connect_siblings, last}
use llvm2cpg.Emitter.Visit.{visit}

pub record Instruction : Type 0 where
  pub info : Info
  pub marks : Marks
  pub instr : Instr

-- A return, or the addresses of the successors. Every kind of terminator but a return is treated
-- alike; those that are not known are reported besides.
pub data Terminator : Type 0 where
  returns : Terminator
  goes_to : List ℕ → Terminator

pub record Block : Type 0 where
  pub address : ℕ
  pub instructions : List Instruction
  pub terminator : Terminator

-- setOrderAndIndex
unfoldable pub set_order_and_index : ℕ → ℕ → M (Unit {0})
set_order_and_index node n = set node (order n ∷ argument_index n ∷ [])

unfoldable pub place : ℕ → Option ℕ → M (Option ℕ)
unfolding set_order_and_index
place n none = pure none
place n (some node) = do set_order_and_index node n; pure (some node)

-- An instruction that is inlined into another is left out.
unfoldable pub emit_unless_inlined : Bool → ℕ → Instruction → M (Option ℕ)
unfolding place
emit_unless_inlined true n x = pure none
emit_unless_inlined false n x = do found ← visit x.info x.marks x.instr; place n found

-- What an instruction of a block adds to the nodes and to the running order: nothing if it is
-- inlined into another, or has no node.
unfoldable pub emit_instruction : ℕ → Instruction → M (Option ℕ)
unfolding emit_unless_inlined
emit_instruction n x = do update_line_info x.marks.debug_loc; emit_unless_inlined x.marks.inline n x

unfoldable pub collect : Option ℕ → List ℕ → List ℕ
collect none nodes = nodes
collect (some node) nodes = node ∷ nodes

unfoldable pub next_order : Option ℕ → ℕ → ℕ
next_order none n = n
next_order (some node) n = suc n

unfoldable pub emit_instructions : ℕ → List Instruction → M (List ℕ × ℕ)
unfolding emit_instruction collect next_order
emit_instructions n [] = pure ([], n)
emit_instructions n (x ∷ xs) = do
  found ← emit_instruction n x
  (nodes, last_order) ← emit_instructions (next_order found n) xs
  pure (collect found nodes, last_order)

-- A block without nodes gets one, so that control can pass through it.
unfoldable pub or_noop : List ℕ × ℕ → M (ℕ × List ℕ × ℕ)
unfolding set_order_and_index
or_noop ([], n) = do node ← emit_noop; set_order_and_index node n; pure (node, [], suc n)
or_noop (node ∷ nodes, n) = pure (node, nodes, n)

unfoldable pub connect_children : ℕ → List ℕ → Graph → Graph
connect_children owner [] g = g
connect_children owner (a ∷ rest) g = connect_children owner rest (connect ast owner a g)

-- The first and the last node of a block, and the order after it.
unfoldable pub emit_block : ℕ → ℕ → Block → M (ℕ × ℕ × ℕ)
unfolding emit_instructions or_noop
emit_block owner n b = do
  collected ← emit_instructions n b.instructions
  (front, rest, last_order) ← or_noop collected
  modify (connect_children owner (front ∷ rest))
  modify (connect_siblings front rest)
  pure (front, last front rest, last_order)
