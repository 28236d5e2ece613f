-- ===== src/Types/Traversal.antt =====
-- The traversal of constructTypeVector (lib/LLVMExt/TypeEquality.cpp): its assertion on the arity,
-- and its end.
use llvm2cpg.Prelude.{
  ℕ, suc, ◌+◌, ◌≡◌, refl, String, Bool, Option, none, some, List, [], ◌∷◌, length, replicate,
  length-append, length-replicate, arith,
}
use llvm2cpg.Types.{
  Ty, primitive, integer, pointer, array, vector, function, literal_struct, identified, to_list,
}
use llvm2cpg.Types.Naming.{lookup}
use llvm2cpg.Types.Equality.{
  Types, Walk, get_type_arity, struct_arity, visit_found_named, visit_found_unnamed, visit_opaque,
  visit_elements, visit_struct, visit_body, visit_type, put_head, get_type_id, turn,
}

-- What the assertion counts.
abbrev written : Walk → ℕ
written w = length w.result + length w.state

-- From `w` to `w'`, `n` more values and types.
abbrev Grows : ℕ → Walk → Walk → Type 0
Grows n w w' = (written w' ≡ written w + n) × (w'.total_arity ≡ w.total_arity)

named-Grows :
    (key : String) (found : Option ℕ) (w : Walk) → Grows 1 w (visit_found_named key found w)
unfolding visit_found_named
named-Grows key (some n) w = (omega (arith, length-append w.result (n ∷ [])), refl)
named-Grows key none w = (omega (arith, length-append w.result (_ ∷ [])), refl)

unnamed-Grows : (a : ℕ) (found : Option ℕ) (w : Walk) → Grows 1 w (visit_found_unnamed a found w)
unfolding visit_found_unnamed
unnamed-Grows a (some n) w = (omega (arith, length-append w.result (n ∷ [])), refl)
unnamed-Grows a none w = (omega (arith, length-append w.result (_ ∷ [])), refl)

opaque-Grows : (a : ℕ) (name : Option String) (w : Walk) → Grows 1 w (visit_opaque a name w)
unfolding visit_opaque
opaque-Grows a none w = unnamed-Grows a _ w
opaque-Grows a (some name) w = named-Grows _ _ w

elements-Grows :
    (a : ℕ) (ts : List Ty) (found : Option ℕ) (w : Walk)
    → Grows (length ts + 1) w (visit_elements a ts found w)
unfolding visit_elements
elements-Grows a ts (some n) w = (
  omega (
    arith,
    length-append w.result (n ∷ replicate (length ts) 0),
    length-replicate {A = ℕ} (length ts) 0,
  ),
  refl,
)
elements-Grows a ts none w =
    (omega (arith, length-append w.result (_ ∷ []), length-append ts w.state), refl)

struct-Grows :
    (a : ℕ) (ts : List Ty) (b : Bool) (w : Walk) → Grows (length ts + 3) w (visit_struct a ts b w)
unfolding visit_struct
struct-Grows a ts b w =
    let h = elements-Grows a ts (lookup a w.visited_structs) _ in
    (omega (arith, h.0, length-append w.result (length ts ∷ _ ∷ [])), h.1)

body-Grows :
    (a : ℕ) (name : Option String) (b : Bool) (body : Option (List Ty)) (w : Walk)
    → Grows (struct_arity body) w (visit_body a name b body w)
unfolding struct_arity visit_body
body-Grows a name b none w = opaque-Grows a name w
body-Grows a name b (some ts) w = struct-Grows a ts b w

type-Grows : (c : Types) (t : Ty) (w : Walk) → Grows (get_type_arity c t) w (visit_type c t w)
unfolding get_type_arity visit_type
type-Grows c (primitive p) w = (omega arith, refl)
type-Grows c (integer n) w = (omega (arith, length-append w.result (n ∷ [])), refl)
type-Grows c (pointer t) w = (omega arith, refl)
type-Grows c (array n t) w = (omega (arith, length-append w.result (n ∷ [])), refl)
type-Grows c (vector n b t) w = (omega (arith, length-append w.result (n ∷ _ ∷ [])), refl)
type-Grows c (function r ps b) w = (
  omega (
    arith,
    length-append w.result (length (to_list ps) ∷ _ ∷ []),
    length-append (to_list ps) w.state,
  ),
  refl,
)
type-Grows c (literal_struct a ts b) w = struct-Grows a (to_list ts) b w
type-Grows c (identified a) w = body-Grows a _ _ (c.structs a).body w

-- The arity that is counted is what was written, and what is on the stack.
abbrev pub Balanced : Walk → Type 0
Balanced w = w.total_arity ≡ length w.result + length w.state

pub turn-Balanced :
    (c : Types) (t : Ty) (rest : List Ty) (w : Walk)
    → w.total_arity ≡ length w.result + suc (length rest)
    → Balanced (turn c t (record w { state = rest }))
unfolding turn put_head
turn-Balanced c t rest w h =
    let k = type-Grows c t (put_head c t (record w { state = rest })) in
    omega (arith, k.0, k.1, h, length-append w.result (get_type_id c t ∷ get_type_arity c t ∷ []))
