-- ===== src/Emission.antt =====
-- What lib/ProtoWriter/CPGEmitter.cpp builds: every emitted operation is a tree in the graph, whose
-- control flow runs through its nodes in post-order.
pub mod Trees
pub mod Layout
pub mod Edges
pub mod Resolve
pub mod Forest
pub mod Opening
pub mod Close
pub mod Leaves
pub mod Operations
pub mod Access
pub mod Calls
pub mod Expressions
pub mod Visit
pub mod Handler
pub mod Order
pub mod Distinct
pub mod Parents
pub mod Paths
pub mod Blocks
pub mod Joined
pub mod Bodies
pub mod Terminators
pub mod Codes
pub mod Declarations
pub mod Method
