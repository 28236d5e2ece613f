-- ===== src/Examples/Declarations.antt =====
-- Declarations at a struct with two members and a typedef, and a name that is recorded twice.
use llvm2cpg.Prelude.{
  ℕ, zero, suc, ◌≡◌, refl, String, true, false, Option, none, some, List, [], ◌∷◌, arith, ◌==◌,
  to_string, if◌then◌else◌,
}
use llvm2cpg.Types.{Ty, Struct, integer, pointer, identified}
use mathlib.Core.Option.{none-ne-some}
use llvm2cpg.Types.Naming.{TypeEmitter, lookup_text}
use llvm2cpg.Graph.{empty}
use llvm2cpg.Declarations.{Declarations, emit_members, emit_structs, emit_recorded_types}
use llvm2cpg.Declarations.Unique.{HasDecls, IsUnique, emitted-IsUnique}
use llvm2cpg.Declarations.Members.{Added, type_names, members-Added}
use llvm2cpg.Declarations.Debug.{
  DebugType, composite, derived, subroutine, basic, Search, search, Module, emit_struct_members,
}
use llvm2cpg.Declarations.Worklist.{IsClosed, left}
use llvm2cpg.Declarations.Reachable.{begun, Collects, search-Collects}

abbrev elements : List Ty
elements = integer 32 ∷ pointer (identified 0) ∷ []

abbrev structs : ℕ → Struct
structs a =
    if a == 0
    then record { name = some "struct.Foo"; body = some elements; is_packed = false }
    else record { name = none; body = none; is_packed = false }

abbrev types : TypeEmitter
types = record {
  depth = 2;
  structs = structs;
  print_type = λ t. "i32";
  canonical_names = λ a. "Foo";
  canonical_opaque_names = [];
  struct_member_names = [];
  recorded_types = ("ANY", "<global>") ∷ ("Foo", "<global>") ∷ [];
}

abbrev declarations : Declarations
declarations = record {
  types = types;
  graph = empty;
  named_type_decls = [];
  type_aliases = ("Foo", "FooRef" ∷ []) ∷ [];
}

declarations-HasDecls : HasDecls declarations
unfolding lookup_text
declarations-HasDecls = record {
  sound = λ t k look. absurd (none-ne-some k look);
  complete = λ k lt is. absurd (ground (arith, is));
}

emitted-IsUnique_example :
    let (emitted, s) = emit_structs (0 ∷ 1 ∷ []) [] declarations in
    HasDecls (emit_recorded_types s) × IsUnique (emit_recorded_types s).graph
emitted-IsUnique_example = emitted-IsUnique (0 ∷ 1 ∷ []) [] declarations declarations-HasDecls

members-Added_example :
    Added 7
      ("count" ∷ [])
      0
      (type_names elements types)
      empty
      (emit_members 7 ("count" ∷ []) 0 elements declarations).graph
members-Added_example = members-Added 7 ("count" ∷ []) 0 elements declarations

-- 0: struct Foo { 1: int count; 2: Foo *next; }, 3: Foo *, 4: int, 5: typedef Foo FooRef
abbrev debug : ℕ → DebugType
debug zero = composite "Foo" (some 1 ∷ some 2 ∷ none ∷ [])
debug (suc zero) = derived false "count" (some 4)
debug (suc (suc zero)) = derived false "next" (some 3)
debug (suc (suc (suc zero))) = derived false "" (some 0)
debug (suc (suc (suc (suc zero)))) = basic "int"
debug (suc (suc (suc (suc (suc zero))))) = derived true "FooRef" (some 0)
debug (suc (suc (suc (suc (suc (suc t)))))) = subroutine []

debug-IsClosed : IsClosed debug 6
debug-IsClosed zero lt = (omega arith, (omega arith, tt))
debug-IsClosed (suc zero) lt = (omega arith, tt)
debug-IsClosed (suc (suc zero)) lt = (omega arith, tt)
debug-IsClosed (suc (suc (suc zero))) lt = (omega arith, tt)
debug-IsClosed (suc (suc (suc (suc zero)))) lt = tt
debug-IsClosed (suc (suc (suc (suc (suc zero))))) lt = (omega arith, tt)
debug-IsClosed (suc (suc (suc (suc (suc (suc t)))))) lt = tt

search-Collects_example :
    (s : Search) × (search
        (left debug 6 (some 5 ∷ none ∷ []) (begun []))
        debug
        (some 5 ∷ none ∷ [])
        (begun [])
      ≡ some s)
    × Collects debug (some 5 ∷ none ∷ []) s.composite_types
search-Collects_example =
    search-Collects debug 6 (some 5 ∷ none ∷ []) [] debug-IsClosed (omega arith, tt)

abbrev bitcode : Module
bitcode = record {
  struct_types = 0 ∷ 1 ∷ [];
  debug = debug;
  variable_types = some 5 ∷ none ∷ [];
  subprogram_types = [];
}

abbrev names_of : Option (List String × Declarations) → List (String × List String)
names_of none = []
names_of (some (emitted, s)) = s.types.struct_member_names

-- The names of the members come from the debug information.
emitted_names :
    names_of (emit_struct_members 20 (bitcode ∷ []) (some ([], declarations)))
    ≡ ("Foo", "count" ∷ "next" ∷ []) ∷ []
unfolding emit_struct_members to_string
emitted_names = refl
