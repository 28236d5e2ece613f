-- ===== src/Emission/Paths.antt =====
-- What an emission adds, seen from the graph alone: one path of control flow through the new nodes,
-- and one AST parent for each of them but the last.
use llvm2cpg.Prelude.{ℕ, ◌≡◌, subst, Option, none, some, List, [], ◌∷◌, ◌++◌}
use llvm2cpg.Prelude.Keys.{AllIn, Distinct}
use mathlib.Core.List.{Perm}
use llvm2cpg.Graph.{Graph, get_entry}
use llvm2cpg.Values.{Info, Marks, Value, Instr}
use llvm2cpg.Emitter.State.{Emitter}
use llvm2cpg.Emitter.Expressions.{emit_ref_or_constant}
use llvm2cpg.Emitter.Visit.{visit}
use llvm2cpg.Emission.Trees.{
  post_order, cfg_edges, child_edges, is_cfg, is_ast, is_argument, select,
}
use llvm2cpg.Emission.Forest.{HasCode, Emits}
use llvm2cpg.Emission.Expressions.{ref_or_constant-Emits}
use llvm2cpg.Emission.Handler.{Outcome, visit-Outcome}
use llvm2cpg.Emission.Order.{chain, cfg_edges-chain, Begins, post_order-first, post_order-root}
use llvm2cpg.Emission.Distinct.{post_order-AllIn, post_order-Distinct}
use llvm2cpg.Emission.Parents.{targets, child_edges-targets}

-- `path` are the new nodes in the order of control.
pub record Straight (g g' : Graph) (r : ℕ) : Type 0 where
  pub path : List ℕ
  pub fresh : AllIn g.node_id g'.node_id path
  pub distinct : Distinct path
  pub begins : Begins path (get_entry g' r)
  pub ends : (front : List ℕ) × (path ≡ front ++ r ∷ [])
  pub flow : List (ℕ × ℕ)
  pub flow_new : select is_cfg g'.edges ≡ flow ++ select is_cfg g.edges
  pub flow_path : Perm flow (chain path)

-- `children` are the new AST edges, and the new argument edges.
pub record Owned (g g' : Graph) (path : List ℕ) (r : ℕ) : Type 0 where
  pub children : List (ℕ × ℕ)
  pub ast_new : select is_ast g'.edges ≡ children ++ select is_ast g.edges
  pub argument_new : select is_argument g'.edges ≡ children ++ select is_argument g.edges
  pub parents : Perm (r ∷ targets children) path

abbrev pub Expression : Graph → Graph → ℕ → Type 0
Expression g g' r = (s : Straight g g' r) × Owned g g' s.path r × HasCode g' r

pub Emits-Expression : {g g' : Graph} {r : ℕ} → Emits g g' r → Expression g g' r
Emits-Expression {g} {g'} {r} h = (straight, owned, h.code)
  where
    straight : Straight g g' r
    straight = record {
      path = post_order h.tree;
      fresh = post_order-AllIn g.node_id g'.node_id h.tree h.within;
      distinct = post_order-Distinct g.node_id g'.node_id h.tree h.within;
      begins = rw h.entry (post_order-first h.tree);
      ends =
          subst (λ q. (front : List ℕ) × (post_order h.tree ≡ front ++ q ∷ [])) h.root_eq
            (post_order-root h.tree);
      flow = cfg_edges h.tree;
      flow_new = h.flow;
      flow_path = cfg_edges-chain h.tree;
    }

    owned : Owned g g' (post_order h.tree) r
    owned = record {
      children = child_edges h.tree;
      ast_new = h.children;
      argument_new = h.arguments;
      parents =
          subst (λ q. Perm (q ∷ targets (child_edges h.tree)) (post_order h.tree)) h.root_eq
            (child_edges-targets h.tree);
    }

-- Whatever the value and the state of the emitter are, emitRefOrConstant adds one expression,
-- in the sense of visit-Visited: inlined instructions, constants, constant expressions, globals
-- and GEP chains included.
pub ref_or_constant-Expression :
    (v : Value) (s : Emitter)
    → Expression s.graph (emit_ref_or_constant v s).1.graph (emit_ref_or_constant v s).0
ref_or_constant-Expression v s = Emits-Expression ((ref_or_constant-Emits v).at s)

-- The graph is as it was where there is no node.
abbrev pub Visited : Graph → Graph → Option ℕ → Type 0
Visited g g' none = g' ≡ g
Visited g g' (some r) = Expression g g' r

Outcome-Visited : (g g' : Graph) (found : Option ℕ) → Outcome g g' found → Visited g g' found
Outcome-Visited g g' none h = h
Outcome-Visited g g' (some r) h = Emits-Expression h

-- Whatever the instruction, its metadata and the state of the emitter are, visiting it either
-- makes no node and leaves the graph as it was, or adds one expression: its new control flow
-- edges are the consecutive pairs of one path through new, distinct nodes, from the entry of
-- the returned node to that node; its new AST edges are its new argument edges, and give each
-- of these nodes but the returned one exactly one parent; and the returned node has a code.
pub visit-Visited :
    (i : Info) (m : Marks) (e : Instr) (s : Emitter)
    → Visited s.graph (visit i m e s).1.graph (visit i m e s).0
visit-Visited i m e s = Outcome-Visited _ _ _ (visit-Outcome i m e s)
