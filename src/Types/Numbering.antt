-- ===== src/Types/Numbering.antt =====
-- The numbers that constructTypeVector (lib/LLVMExt/TypeEquality.cpp) gives to opaque structs.
use llvm2cpg.Prelude.{
  ℕ, zero, suc, ◌+◌, ◌≤◌, ◌≡◌, subst, String, Bool, Option, none, some, List, [], ◌∷◌, length,
  arith,
}
use llvm2cpg.Prelude.Keys.{AllIn, Apart, Apart-above, Distinct}
use llvm2cpg.Types.{
  Ty, primitive, integer, pointer, array, vector, function, literal_struct, identified,
}
use llvm2cpg.Types.Equality.{
  Types, Walk, visit_found_named, visit_found_unnamed, visit_opaque, visit_elements, visit_struct,
  visit_body, visit_type, put_head, turn, traverse, construct_type_vector, start,
}
use llvm2cpg.Types.Fuel.{size, unseen}
use llvm2cpg.Types.Total.{IsTable, construct_type_vector-total}

abbrev pub numbers {ℓ} : {K : Type ℓ} → List (K × ℕ) → List ℕ
numbers [] = []
numbers ((k, n) ∷ rest) = n ∷ numbers rest

-- No number of the one list is in the other.
abbrev pub Disjoint : List ℕ → List ℕ → Type 0
Disjoint [] u = Unit {0}
Disjoint (a ∷ rest) u = Apart a u × Disjoint rest u

-- Every opaque struct, named or not, has a number of its own, below their count.
pub record Numbered (o : List (String × ℕ)) (u : List (ℕ × ℕ)) : Type 0 where
  pub named : AllIn 0 (length o + length u) (numbers o)
  pub unnamed : AllIn 0 (length o + length u) (numbers u)
  pub named_distinct : Distinct (numbers o)
  pub unnamed_distinct : Distinct (numbers u)
  pub disjoint : Disjoint (numbers o) (numbers u)

AllIn-later : (hi hi' : ℕ) (l : List ℕ) → hi ≤ hi' → AllIn 0 hi l → AllIn 0 hi' l
AllIn-later hi hi' [] le h = tt
AllIn-later hi hi' (a ∷ l) le h = (omega arith, omega arith, AllIn-later hi hi' l le h.2)

Disjoint-cons : (n : ℕ) (l u : List ℕ) → AllIn 0 n l → Disjoint l u → Disjoint l (n ∷ u)
Disjoint-cons n [] u h d = tt
Disjoint-cons n (a ∷ l) u h d = ((omega arith, d.0), Disjoint-cons n l u h.2 d.1)

abbrev HasNumbers : Walk → Type 0
HasNumbers w = Numbered w.opaque_structs w.unnamed_structs

named-HasNumbers :
    (key : String) (found : Option ℕ) (w : Walk)
    → HasNumbers w
    → HasNumbers (visit_found_named key found w)
unfolding visit_found_named
named-HasNumbers key (some n) w h = h
named-HasNumbers key none w h =
    let n = length w.opaque_structs + length w.unnamed_structs in
    record {
      named = (omega arith, omega arith, AllIn-later n _ _ (omega arith) h.named);
      unnamed = AllIn-later n _ _ (omega arith) h.unnamed;
      named_distinct = (Apart-above 0 n n _ h.named (omega arith), h.named_distinct);
      unnamed_distinct = h.unnamed_distinct;
      disjoint = (Apart-above 0 n n _ h.unnamed (omega arith), h.disjoint);
    }

unnamed-HasNumbers :
    (a : ℕ) (found : Option ℕ) (w : Walk)
    → HasNumbers w
    → HasNumbers (visit_found_unnamed a found w)
unfolding visit_found_unnamed
unnamed-HasNumbers a (some n) w h = h
unnamed-HasNumbers a none w h =
    let n = length w.opaque_structs + length w.unnamed_structs in
    record {
      named = AllIn-later n _ _ (omega arith) h.named;
      unnamed = (omega arith, omega arith, AllIn-later n _ _ (omega arith) h.unnamed);
      named_distinct = h.named_distinct;
      unnamed_distinct = (Apart-above 0 n n _ h.unnamed (omega arith), h.unnamed_distinct);
      disjoint = Disjoint-cons n _ _ h.named h.disjoint;
    }

opaque-HasNumbers :
    (a : ℕ) (name : Option String) (w : Walk) → HasNumbers w → HasNumbers (visit_opaque a name w)
unfolding visit_opaque
opaque-HasNumbers a none w h = unnamed-HasNumbers a _ w h
opaque-HasNumbers a (some name) w h = named-HasNumbers _ _ w h

elements-HasNumbers :
    (a : ℕ) (ts : List Ty) (found : Option ℕ) (w : Walk)
    → HasNumbers w
    → HasNumbers (visit_elements a ts found w)
unfolding visit_elements
elements-HasNumbers a ts none w h = h
elements-HasNumbers a ts (some n) w h = h

struct-HasNumbers :
    (a : ℕ) (ts : List Ty) (b : Bool) (w : Walk) → HasNumbers w → HasNumbers (visit_struct a ts b w)
unfolding visit_struct
struct-HasNumbers a ts b w h = elements-HasNumbers a ts _ _ h

body-HasNumbers :
    (a : ℕ) (name : Option String) (b : Bool) (body : Option (List Ty)) (w : Walk)
    → HasNumbers w
    → HasNumbers (visit_body a name b body w)
unfolding visit_body
body-HasNumbers a name b none w h = opaque-HasNumbers a name w h
body-HasNumbers a name b (some ts) w h = struct-HasNumbers a ts b w h

turn-HasNumbers : (c : Types) (t : Ty) (w : Walk) → HasNumbers w → HasNumbers (turn c t w)
unfolding turn put_head visit_type
turn-HasNumbers c (primitive p) w h = h
turn-HasNumbers c (integer i) w h = h
turn-HasNumbers c (pointer t) w h = h
turn-HasNumbers c (array i t) w h = h
turn-HasNumbers c (vector i b t) w h = h
turn-HasNumbers c (function r ps b) w h = h
turn-HasNumbers c (literal_struct a ts b) w h = struct-HasNumbers a _ b _ h
turn-HasNumbers c (identified a) w h = body-HasNumbers a _ _ (c.structs a).body _ h

abbrev OnSome : (Walk → Type 0) → Option Walk → Type 0
OnSome P none = Unit {0}
OnSome P (some w) = P w

traverse-HasNumbers :
    (fuel : ℕ) (c : Types) (ts : List Ty) (w : Walk)
    → HasNumbers w
    → OnSome HasNumbers (traverse fuel c ts w)
unfolding traverse
traverse-HasNumbers fuel c [] w h = h
traverse-HasNumbers zero c (t ∷ ts) w h = tt
traverse-HasNumbers (suc fuel) c (t ∷ ts) w h =
    let next = turn c t (record w { state = ts }) in
    traverse-HasNumbers fuel c next.state next (turn-HasNumbers c t (record w { state = ts }) h)

-- If only the structs below some address have elements, and the opaque structs known so far,
-- named and unnamed, have numbers that are all different and below their count, then
-- constructTypeVector ends, and the tables that it leaves have this property again.
pub construct_type_vector-Numbered :
    (c : Types) (n : ℕ) (t : Ty) (o : List (String × ℕ)) (u : List (ℕ × ℕ))
    → IsTable c n
    → Numbered o u
    → (w : Walk) × (construct_type_vector (size t + unseen c n []) c (start t o u) ≡ some w)
      × Numbered w.opaque_structs w.unnamed_structs
unfolding construct_type_vector start
construct_type_vector-Numbered c n t o u h k =
    let (w, e, _) = construct_type_vector-total c n t o u h in
    (
      w,
      e,
      subst (OnSome HasNumbers) e
          (traverse-HasNumbers (size t + unseen c n []) c (t ∷ []) (start t o u) k),
    )
