-- ===== src/Types/Equality.antt =====
-- The vector of a type that type equality hashes: constructTypeVector and what it calls, of
-- lib/LLVMExt/TypeEquality.cpp.
use llvm2cpg.Prelude.{
  ℕ, zero, suc, ◌+◌, String, Bool, true, false, Option, none, some, List, [], ◌∷◌, ◌++◌, length,
  replicate, if◌then◌else◌,
}
use Prim.Native.String
use text.Mathlib.Text.{◌==◌ as str_eq}
use llvm2cpg.Types.{
  Ty, Struct, primitive, integer, pointer, array, vector, function, literal_struct, identified,
  to_list,
}
use llvm2cpg.Types.Naming.{lookup, lookup_text}

-- What the traversal reads: the table of structs, and LLVM's numbering of the kinds of types
-- (llvm::Type::getTypeID), which is a parameter.
pub record Types : Type 0 where
  pub structs : ℕ → Struct
  pub type_id : Ty → ℕ

-- StringRef::consume_front
consume_front : String → String → String
consume_front prefix s =
    if str_eq (String.slice s 0 (String.len prefix)) prefix
    then String.slice s (String.len prefix) (String.len s)
    else s

-- getCanonicalName: without the three prefixes, up to the first dot.
unfoldable pub get_canonical_name : String → String
unfolding consume_front
get_canonical_name name =
    let short = consume_front "union." (consume_front "struct." (consume_front "class." name)) in
    String.slice short 0 (String.find short ".")

-- An opaque struct, or a struct with elements.
unfoldable pub struct_arity : Option (List Ty) → ℕ
struct_arity none = 1
struct_arity (some ts) = length ts + 3

unfoldable pub get_type_arity : Types → Ty → ℕ
unfolding struct_arity
get_type_arity c (primitive p) = 0
get_type_arity c (integer w) = 1
get_type_arity c (array n t) = 2
get_type_arity c (pointer t) = 1
get_type_arity c (vector n b t) = 3
get_type_arity c (function r ps b) = length (to_list ps) + 3
get_type_arity c (literal_struct a ts b) = length (to_list ts) + 3
get_type_arity c (identified a) = struct_arity (c.structs a).body

-- An opaque struct has a number of its own.
unfoldable pub get_type_id : Types → Ty → ℕ
get_type_id c (identified a) = elim (c.structs a).body [
  | none ↦ 42
  | some ts ↦ c.type_id (identified a)
]
get_type_id c t = c.type_id t

-- The variables of constructTypeVector. Structs are told apart by their address.
pub record Walk : Type 0 where
  pub state : List Ty
  pub result : List ℕ
  pub opaque_structs : List (String × ℕ)
  pub unnamed_structs : List (ℕ × ℕ)
  pub visited_structs : List (ℕ × ℕ)
  pub total_arity : ℕ

abbrev number : Bool → ℕ
number false = 0
number true = 1

-- `result.push_back` for each of a list, and `state.push` so that the first is popped first.
abbrev pub put : List ℕ → Walk → Walk
put values w = record w { result = w.result ++ values }

abbrev pub push : List Ty → Walk → Walk
push types w = record w { state = types ++ w.state }

-- The id of an opaque struct counts those of both kinds that came before it.
abbrev fresh_id : Walk → ℕ
fresh_id w = length w.opaque_structs + length w.unnamed_structs

unfoldable pub visit_found_named : String → Option ℕ → Walk → Walk
visit_found_named key (some n) w = put (n ∷ []) w
visit_found_named key none w =
    let n = fresh_id w in put (n ∷ []) (record w { opaque_structs = (key, n) ∷ w.opaque_structs })

unfoldable pub visit_found_unnamed : ℕ → Option ℕ → Walk → Walk
visit_found_unnamed a (some n) w = put (n ∷ []) w
visit_found_unnamed a none w =
    let n = fresh_id w in put (n ∷ []) (record w { unnamed_structs = (a, n) ∷ w.unnamed_structs })

unfoldable pub visit_opaque : ℕ → Option String → Walk → Walk
unfolding visit_found_named visit_found_unnamed lookup lookup_text get_canonical_name
visit_opaque a none w = visit_found_unnamed a (lookup a w.unnamed_structs) w
visit_opaque a (some name) w =
    let key = get_canonical_name name in visit_found_named key (lookup_text key w.opaque_structs) w

-- Where the struct was met before, zeros stand for its elements.
unfoldable pub visit_elements : ℕ → List Ty → Option ℕ → Walk → Walk
visit_elements a elements (some n) w = put (n ∷ replicate (length elements) 0) w
visit_elements a elements none w =
    let n = length w.visited_structs in
    push elements (put (n ∷ []) (record w { visited_structs = (a, n) ∷ w.visited_structs }))

unfoldable pub visit_struct : ℕ → List Ty → Bool → Walk → Walk
unfolding lookup visit_elements
visit_struct a elements is_packed w =
    visit_elements a elements (lookup a w.visited_structs)
      (put (length elements ∷ number is_packed ∷ []) w)

unfoldable pub visit_body : ℕ → Option String → Bool → Option (List Ty) → Walk → Walk
unfolding visit_opaque visit_struct
visit_body a name is_packed none w = visit_opaque a name w
visit_body a name is_packed (some elements) w = visit_struct a elements is_packed w

-- The switch on the kind of a type.
unfoldable pub visit_type : Types → Ty → Walk → Walk
unfolding visit_body visit_struct
visit_type c (primitive p) w = w
visit_type c (integer width) w = put (width ∷ []) w
visit_type c (function r ps is_var_arg) w =
    push (r ∷ to_list ps) (put (length (to_list ps) ∷ number is_var_arg ∷ []) w)
visit_type c (literal_struct a ts is_packed) w = visit_struct a (to_list ts) is_packed w
visit_type c (identified a) w = let s = c.structs a in visit_body a s.name s.is_packed s.body w
visit_type c (array n t) w = push (t ∷ []) (put (n ∷ []) w)
visit_type c (pointer t) w = push (t ∷ []) w
visit_type c (vector n is_scalable t) w = push (t ∷ []) (put (n ∷ number is_scalable ∷ []) w)

-- The head of a type, which comes before the rest of it.
unfoldable pub put_head : Types → Ty → Walk → Walk
unfolding get_type_id get_type_arity
put_head c t w =
    let arity = get_type_arity c t in
    put (get_type_id c t ∷ arity ∷ []) (record w { total_arity = w.total_arity + (arity + 1) })

-- One turn of the loop, on the type that was popped.
unfoldable pub turn : Types → Ty → Walk → Walk
unfolding visit_type put_head
turn c t w = visit_type c t (put_head c t w)

-- The loop, for at most as many turns as the fuel: the stack is split off from the other variables.
unfoldable pub traverse : ℕ → Types → List Ty → Walk → Option Walk
unfolding turn
traverse fuel c [] w = some w
traverse zero c (t ∷ rest) w = none
traverse (suc fuel) c (t ∷ rest) w =
    let next = turn c t (record w { state = rest }) in traverse fuel c next.state next

unfoldable pub construct_type_vector : ℕ → Types → Walk → Option Walk
unfolding traverse
construct_type_vector fuel c w = traverse fuel c w.state w

unfoldable pub start : Ty → List (String × ℕ) → List (ℕ × ℕ) → Walk
start t opaque_structs unnamed_structs = record {
  state = t ∷ [];
  result = [];
  opaque_structs = opaque_structs;
  unnamed_structs = unnamed_structs;
  visited_structs = [];
  total_arity = 1;
}
