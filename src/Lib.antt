-- ===== src/Lib.antt =====
-- A model of llvm2cpg, which turns LLVM bitcode into a code property graph (CPG).
--
-- The program loads bitcode, runs passes on it (lib/Transforms), and writes one graph: for each
-- function CPGEmitter::emitMethod visits the instructions block by block and makes nodes through
-- CPGProtoBuilder; CPGTypeEmitter names and records the types that come up; TypesComparator tells
-- whether two struct types are the same. The model follows the data from the instructions to the
-- graph:
--
--   Types            LLVM types and the table of identified structs
--   Types/Naming     typeToString, recordType, getStructMembers of lib/ProtoWriter/CPGTypeEmitter.cpp;
--                    Types/Recording is about the table of recorded types, Recursive about
--                    structs that reach themselves
--   Types/Equality   constructTypeVector of lib/LLVMExt/TypeEquality.cpp; Types/Traversal, Fuel and
--                    Total are about its loop, Numbering about the numbers of opaque structs
--   Types/Comparator TypesComparator of lib/LLVMExt/TypeEquality.cpp: the hash and its cache
--   Types/Canonical  recordCanonicalStructNames of lib/ProtoWriter/CPGTypeEmitter.cpp; Cached, Grouping,
--                    Parts, Classes and Deduplicated are about it and the cache
--   Declarations     the nodes of types and members (lib/ProtoWriter/CPGTypeEmitter.cpp), Debug the
--                    search through the debug information; Unique, Members, Worklist and Reachable
--                    are about them; Classes has emitObjCTypes and emitObjCMethodBindings, Bindings
--                    is about the declarations of classes
--   Passes           lib/Transforms/CustomPasses.cpp: Function is what a pass reads, Uses the
--                    recursions over uses, Inline LoadInlinePass; Reaches describes where a value goes,
--                    Ends, Scanned, Valid, Marking and Safety are about the pass
--   ObjC             lib/CPG/ObjCTypeHierarchy.cpp; Merged and Inherited are about methods
--   Transforms       inlineGlobalStrings of lib/Transforms/Transforms.cpp; Inlined, Marked and Strings
--                    are about the strings that it finds and the marks that it makes
--   Demangler        lib/Demangler: Demangler.cpp and CPGDemangler.cpp, Intrinsics the table of
--                    IntrinsicsDemangler.cpp; Cached is about the cache, Texts, Brackets, Pieces and Names about
--                    extractNameFromCXXName
--   FileType         tools/llvm2cpg/FileType.cpp
--   Tool             tools/llvm2cpg/llvm2cpgTool.cpp: input files and loading; Kinds and Inputs are about
--                    the input files
--   Operators        lib/CPG/CPGOperatorNames.cpp
--   Graph            CPGProtoBuilder and CPGProtoNode (lib/ProtoWriter)
--   Values           the LLVM values and instructions that the emitter reads
--   Emitter/*        lib/ProtoWriter/CPGEmitter.cpp: State has its fields and small methods,
--                    Connections resolveConnections, Constants emitConstant, Operations and Access the
--                    emit methods of operations, Calls and FunctionCall those of calls, Expressions
--                    emitRefOrConstant, Visit the visit methods, Block and Method emitMethod
--   Emission/*       what the emitter does to the graph: Trees and Layout are the shape that is added,
--                    Edges, Resolve, Forest, Opening and Close the rules, Leaves to Handler the
--                    methods one by one, Order, Distinct, Parents and Paths the view from the graph alone, Blocks to
--                    Terminators the blocks of a method, Declarations its parameters and locals,
--                    Method the whole of it, Codes the texts of nodes
--   Examples/*       a program with an addition, a store, branches and a recursive struct, and one
--                    example for each other part
--
-- How state and operations correspond: the record Emitter has the fields of CPGEmitter and the
-- builder's graph; a method is a function from it to a result and the next state, written with do.
-- A CPGProtoNode pointer is the node's key, which is the graph's counter at its creation and at
-- least 1. Every setter appends a property, as the code does. Edges stand newest first. A method
-- that takes a value takes here the action that emits its operand, so that emitRefOrConstant is the
-- only recursion; it is on the value, which is the tree of its operands, in place of pointers: the
-- identity of a value, which locals and globals are looked up by, is its `address`.
--
-- Decisions. What LLVM computes is data of the values (printed operands, indexed types, texts of
-- floats, whether bytes are UTF-8) or a field of the state (the print of primitive types, the
-- canonical names), and the numbers of the kinds of types are a parameter. Where C++ leaves the
-- order of two arguments open, the left one is emitted first. A constant GEP that has no second
-- index is not inlined, and a cast of a value that is no pointer is no tag. An exception is none.
-- Failing assertions go on as in a build without assertions; `entryPoints.at` for a block that is
-- not in the function makes no edge; a call of objc_msgSend or objc_opt_new that lacks its first
-- arguments makes an unhandled node. A load has one operand, so that its inlined string is never
-- the null constant. The map `locals` keeps the entry that is there on insertion. Structs are
-- told apart by their address, so that a literal struct and an identified one are taken to have
-- different addresses.
--
-- Containers: sets and maps that the code iterates over in the order of their hashes are lists here,
-- newest first or in the order of insertion, and functions where they are only looked up;
-- std::partition is taken to keep the order within its two parts. Instructions, debug types and
-- functions are known by numbers. The alias analysis, the uses of a value and std::hash are data.
--
-- Fuel: the name of a type nests the bodies of unnamed structs at most `depth` times. The loop of
-- constructTypeVector takes one turn for each unit of fuel; the bound that is enough is in
-- Types/Total. The recursions of LoadInlinePass need the depth of the uses, the search through the
-- debug information one turn for each root and reference, and fillInMethods the depth of the classes.
--
-- Not modelled: log messages; the other passes on the bitcode, and the decoding of the Objective-C
-- metadata; abi::__cxa_demangle, which is a parameter; BitcodeLoader, command lines and the
-- serialization of the graph.
pub mod Prelude
pub mod Types
pub mod Operators
pub mod Graph
pub mod Values
pub mod Emitter
pub mod Passes
pub mod Transforms
pub mod FileType
pub mod Tool
pub mod Declarations
pub mod ObjC
pub mod Demangler
pub mod Emission
pub mod Examples
