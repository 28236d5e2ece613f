-- ===== src/Declarations/Debug.antt =====
-- The debug information about structs: recordStructInformation of
-- lib/ProtoWriter/CPGTypeEmitter.cpp. A DIType is known by a number, and null is none.
use llvm2cpg.Prelude.{
  ℕ, zero, suc, String, Bool, true, false, not, ◌&&◌, Option, none, some, List, [], ◌∷◌, ◌++◌, ◌==◌,
  length, if◌then◌else◌,
}
use text.Mathlib.Text.{◌==◌ as str_eq}
use llvm2cpg.Types.{Ty, identified}
use llvm2cpg.Types.Naming.{TypeEmitter, lookup_text, type_to_string}
use llvm2cpg.Emitter.State.{mem}
use llvm2cpg.Declarations.{Declarations, emit_structs}

-- The elements of a composite type that are no types are none. A derived type is a typedef or
-- another one, as a member or a pointer.
pub data DebugType : Type 0 where
  composite : String → List (Option ℕ) → DebugType
  derived : Bool → String → Option ℕ → DebugType
  subroutine : List (Option ℕ) → DebugType
  basic : String → DebugType

abbrev pub debug_name : DebugType → String
debug_name (composite n elements) = n
debug_name (derived is_typedef n base) = n
debug_name (subroutine types) = ""
debug_name (basic n) = n

-- The types that are pushed for a type.
abbrev pub children : DebugType → List (Option ℕ)
children (composite n elements) = elements
children (derived is_typedef n base) = base ∷ []
children (subroutine types) = types
children (basic n) = []

abbrev pub Aliases : Type 0
Aliases = List (String × List String)

-- The variables of the loop, without the worklist.
pub record Search : Type 0 where
  pub visited : List ℕ
  pub composite_types : List ℕ
  pub aliases : Aliases

abbrev pub is_empty : String → Bool
is_empty n = str_eq n ""

-- type_aliases[key].push_back(alias)
unfoldable pub push_alias : String → String → Aliases → Aliases
push_alias key alias [] = (key, alias ∷ []) ∷ []
push_alias key alias ((k, l) ∷ rest) =
    let later = push_alias key alias rest in
    if str_eq k key then (k, l ++ alias ∷ []) ∷ rest else (k, l) ∷ later

unfoldable pub record_alias : (ℕ → DebugType) → Bool → String → Option ℕ → Aliases → Aliases
unfolding push_alias
record_alias debug false alias base aliases = aliases
record_alias debug true alias none aliases = aliases
record_alias debug true alias (some b) aliases =
    let key = debug_name (debug b) in
    if not (is_empty key) && not (is_empty alias) then push_alias key alias aliases else aliases

unfoldable pub visit_debug : (ℕ → DebugType) → ℕ → DebugType → Search → Search
unfolding record_alias
visit_debug debug t (composite n elements) s = record s {
  composite_types = s.composite_types ++ t ∷ [];
}
visit_debug debug t (derived is_typedef n base) s = record s {
  aliases = record_alias debug is_typedef n base s.aliases;
}
visit_debug debug t (subroutine types) s = s
visit_debug debug t (basic n) s = s

abbrev pub enter : ℕ → Search → Search
enter t s = record s { visited = t ∷ s.visited }

-- One turn: a null type and one that was visited are passed over.
unfoldable pub visit_unless :
    (ℕ → DebugType) → ℕ → Bool → List (Option ℕ) → Search → List (Option ℕ) × Search
unfolding visit_debug
visit_unless debug t true rest s = (rest, s)
visit_unless debug t false rest s =
    (rest ++ children (debug t), visit_debug debug t (debug t) (enter t s))

unfoldable pub pop :
    (ℕ → DebugType) → Option ℕ → List (Option ℕ) → Search → List (Option ℕ) × Search
unfolding visit_unless mem
pop debug none rest s = (rest, s)
pop debug (some t) rest s = visit_unless debug t (mem t s.visited) rest s

-- The loop over the queue.
unfoldable pub search : ℕ → (ℕ → DebugType) → List (Option ℕ) → Search → Option Search
unfolding pop
search fuel debug [] s = some s
search zero debug (t ∷ rest) s = none
search (suc fuel) debug (t ∷ rest) s =
    let (work, s₁) = pop debug t rest s in search fuel debug work s₁

-- The names of the elements that are derived types.
unfoldable pub member_names : (ℕ → DebugType) → List (Option ℕ) → List String
member_names debug [] = []
member_names debug (none ∷ rest) = member_names debug rest
member_names debug (some t ∷ rest) =
    let names = member_names debug rest in
    elim (debug t) [ derived is_typedef n base ↦ n ∷ names | _ ↦ names ]

unfoldable pub record_members : (ℕ → DebugType) → DebugType → Aliases → Aliases
unfolding member_names
record_members debug (composite n elements) names =
    if is_empty n then names else (n, member_names debug elements) ∷ names
record_members debug _ names = names

unfoldable pub record_composites : (ℕ → DebugType) → List ℕ → Aliases → Aliases
unfolding record_members
record_composites debug [] names = names
record_composites debug (t ∷ ts) names =
    record_composites debug ts (record_members debug (debug t) names)

unfoldable pub erase : String → Aliases → Aliases
erase key [] = []
erase key ((k, l) ∷ rest) =
    let later = erase key rest in if str_eq k key then later else (k, l) ∷ later

-- The sanity check on one struct, by its canonical name and the number of its elements.
unfoldable pub check_found : String → ℕ → Option (List String) → Aliases → Aliases
unfolding erase
check_found key n none names = names
check_found key n (some members) names = if length members == n then names else erase key names

abbrev pub element_count : Option (List Ty) → ℕ
element_count none = 0
element_count (some ts) = length ts

unfoldable pub check_structs : List ℕ → TypeEmitter → TypeEmitter
unfolding check_found lookup_text type_to_string
check_structs [] s = s
check_structs (address ∷ rest) s =
    let (key, s₁) = type_to_string (identified address) s in
    let names = s₁.struct_member_names in
    check_structs rest (record s₁ {
      struct_member_names =
          check_found key (element_count (s₁.structs address).body) (lookup_text key names) names;
    })

-- What the emitter reads of a module: its identified structs, and the types of the variables that
-- are declared to the debugger and of the functions.
pub record Module : Type 0 where
  pub struct_types : List ℕ
  pub debug : ℕ → DebugType
  pub variable_types : List (Option ℕ)
  pub subprogram_types : List (Option ℕ)

abbrev pub recorded : Module → Search → Declarations → Declarations
recorded m found s =
    let names = record_composites m.debug found.composite_types s.types.struct_member_names in
    record s {
      types = check_structs m.struct_types (record s.types { struct_member_names = names });
      type_aliases = found.aliases;
    }

unfoldable pub record_found_information :
    Module → Option Search → Declarations → Option Declarations
unfolding record_composites check_structs
record_found_information m none s = none
record_found_information m (some found) s = some (recorded m found s)

unfoldable pub record_struct_information : ℕ → Module → Declarations → Option Declarations
unfolding search record_found_information
record_struct_information fuel m s =
    record_found_information m
      (search fuel m.debug (m.variable_types ++ m.subprogram_types)
        (record { visited = []; composite_types = []; aliases = s.type_aliases }))
      s

unfoldable pub emit_module_structs :
    List ℕ → List String → Option Declarations → Option (List String × Declarations)
unfolding emit_structs
emit_module_structs addresses emitted none = none
emit_module_structs addresses emitted (some s) = some (emit_structs addresses emitted s)

unfoldable pub emit_module :
    ℕ → Module → Option (List String × Declarations) → Option (List String × Declarations)
unfolding emit_module_structs record_struct_information
emit_module fuel m none = none
emit_module fuel m (some (emitted, s)) =
    emit_module_structs m.struct_types emitted (record_struct_information fuel m s)

-- emitStructMembers, module by module
unfoldable pub emit_struct_members :
    ℕ → List Module → Option (List String × Declarations) → Option (List String × Declarations)
unfolding emit_module
emit_struct_members fuel [] s = s
emit_struct_members fuel (m ∷ ms) s = emit_struct_members fuel ms (emit_module fuel m s)
