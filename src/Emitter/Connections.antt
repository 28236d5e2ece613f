-- ===== src/Emitter/Connections.antt =====
-- resolveConnections: the CFG, AST and ARGUMENT edges between an operation and its operands.
use llvm2cpg.Prelude.{ℕ, suc, List, [], ◌∷◌, ◌+◌}
use llvm2cpg.Graph.{
  Graph, cfg, ast, argument, order, argument_index, connect, set_entry, set_properties, get_entry,
}
use llvm2cpg.Emitter.State.{M, modify, pure, ◌>>◌}

-- `children.back()` for a list that begins with the first argument.
unfoldable pub last : ℕ → List ℕ → ℕ
last a [] = a
last a (b ∷ rest) = last b rest

-- From each child to the entry of the next.
unfoldable pub connect_siblings : ℕ → List ℕ → Graph → Graph
connect_siblings a [] g = g
connect_siblings a (b ∷ rest) g = connect_siblings b rest (connect cfg a (get_entry g b) g)

unfoldable pub resolve_cfg_connections : ℕ → List ℕ → Graph → Graph
unfolding last connect_siblings
resolve_cfg_connections parent [] g = set_entry parent parent g
resolve_cfg_connections parent (a ∷ rest) g =
    connect_siblings a rest (connect cfg (last a rest) parent (set_entry parent (get_entry g a) g))

-- The children from the one with the given index on.
unfoldable pub resolve_ast_from : ℕ → ℕ → List ℕ → Graph → Graph
resolve_ast_from i parent [] g = g
resolve_ast_from i parent (a ∷ rest) g =
    resolve_ast_from (suc i) parent rest
      (connect ast parent a (set_properties a (order (i + 1) ∷ argument_index (i + 1) ∷ []) g))

unfoldable pub resolve_ast_connections : ℕ → List ℕ → Graph → Graph
unfolding resolve_ast_from
resolve_ast_connections = resolve_ast_from 0

unfoldable pub resolve_argument_connections : ℕ → List ℕ → Graph → Graph
resolve_argument_connections call [] g = g
resolve_argument_connections call (a ∷ rest) g =
    resolve_argument_connections call rest (connect argument call a g)

unfoldable pub resolved : ℕ → List ℕ → Graph → Graph
resolved parent children g =
    resolve_argument_connections parent children
      (resolve_ast_connections parent children (resolve_cfg_connections parent children g))

unfoldable pub resolve_connections : ℕ → List ℕ → M ℕ
resolve_connections parent children = do modify (resolved parent children); pure parent
