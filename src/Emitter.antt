-- ===== src/Emitter.antt =====
-- lib/ProtoWriter/CPGEmitter.cpp: the graph of a method. An action takes the emitter and returns a
-- result with the emitter after it. A node is its key. Logging changes nothing and is left out.
pub mod State
pub mod Connections
pub mod Constants
pub mod Operations
pub mod Access
pub mod Calls
pub mod Expressions
pub mod FunctionCall
pub mod Visit
pub mod Block
pub mod Method
