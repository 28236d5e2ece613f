-- ===== src/Types/Total.antt =====
-- constructTypeVector (lib/LLVMExt/TypeEquality.cpp) ends, and its assertion holds.
use llvm2cpg.Prelude.{
  ℕ, zero, suc, ◌+◌, ◌≤◌, ◌<◌, ◌≡◌, ◌⊎◌, refl, subst, String, Bool, Option, none, some, List, [],
  ◌∷◌, length, inl, inr, arith, ltb, Bool-cases,
}
use llvm2cpg.Types.{
  Ty, primitive, integer, pointer, array, vector, function, literal_struct, identified, to_list,
}
use llvm2cpg.Types.Naming.{lookup}
use llvm2cpg.Types.Equality.{
  Types, Walk, visit_found_named, visit_found_unnamed, visit_opaque, visit_elements, visit_struct,
  visit_body, visit_type, put_head, turn, traverse, construct_type_vector, start,
}
use llvm2cpg.Types.Traversal.{turn-Balanced}
use llvm2cpg.Types.Fuel.{
  size, size_all, size_all-to_list, size_all-append, body_size, unseen, unseen_mono, unseen-met,
}

-- What is left to do: the types on the stack, and the elements that may still come.
abbrev pub remaining : Types → ℕ → Walk → ℕ
remaining c n w = size_all w.state + unseen c n w.visited_structs

named-remaining :
    (c : Types) (n : ℕ) (key : String) (found : Option ℕ) (w : Walk)
    → remaining c n (visit_found_named key found w) ≡ remaining c n w
unfolding visit_found_named
named-remaining c n key (some i) w = refl
named-remaining c n key none w = refl

unnamed-remaining :
    (c : Types) (n a : ℕ) (found : Option ℕ) (w : Walk)
    → remaining c n (visit_found_unnamed a found w) ≡ remaining c n w
unfolding visit_found_unnamed
unnamed-remaining c n a (some i) w = refl
unnamed-remaining c n a none w = refl

opaque-remaining :
    (c : Types) (n a : ℕ) (name : Option String) (w : Walk)
    → remaining c n (visit_opaque a name w) ≡ remaining c n w
unfolding visit_opaque
opaque-remaining c n a none w = unnamed-remaining c n a _ w
opaque-remaining c n a (some name) w = named-remaining c n _ _ w

-- The elements of a literal struct are part of the type.
literal-remaining :
    (c : Types) (n a : ℕ) (ts : List Ty) (found : Option ℕ) (w : Walk)
    → remaining c n (visit_elements a ts found w) ≤ size_all ts + remaining c n w
unfolding visit_elements
literal-remaining c n a ts (some i) w = omega arith
literal-remaining c n a ts none w = omega (
  arith,
  size_all-append ts w.state,
  unseen_mono c a (length w.visited_structs) w.visited_structs n,
)

literal_struct-remaining :
    (c : Types) (n a : ℕ) (ts : List Ty) (b : Bool) (w : Walk)
    → remaining c n (visit_struct a ts b w) ≤ size_all ts + remaining c n w
unfolding visit_struct
literal_struct-remaining c n a ts b w = literal-remaining c n a ts _ _

-- Those of an identified one are in the table.
table-remaining :
    (c : Types) (n a : ℕ) (ts : List Ty) (found : Option ℕ) (w : Walk)
    → a < n
    → (c.structs a).body ≡ some ts
    → lookup a w.visited_structs ≡ found
    → remaining c n (visit_elements a ts found w) ≤ remaining c n w
unfolding visit_elements
table-remaining c n a ts (some i) w lt e f = omega arith
table-remaining c n a ts none w lt e f = omega (
  arith,
  size_all-append ts w.state,
  subst
      (λ b.
        unseen c n ((a, length w.visited_structs) ∷ w.visited_structs) + body_size b
        ≤ unseen c n w.visited_structs)
      e (unseen-met c a (length w.visited_structs) w.visited_structs n lt f),
)

body-remaining :
    (c : Types) (n a : ℕ) (name : Option String) (b : Bool) (body : Option (List Ty)) (w : Walk)
    → a < n ⊎ (body ≡ none)
    → (c.structs a).body ≡ body
    → remaining c n (visit_body a name b body w) ≤ remaining c n w
unfolding visit_body visit_struct
body-remaining c n a name b none w lt e = omega (arith, opaque-remaining c n a name w)
body-remaining c n a name b (some ts) w (inl lt) e = table-remaining c n a ts _ _ lt e refl
body-remaining c n a name b (some ts) w (inr h) e = absurd (ground (arith, h))

-- The table of structs is finite.
abbrev pub IsTable : Types → ℕ → Type 0
IsTable c n = (a : ℕ) → n ≤ a → (c.structs a).body ≡ none

known : (c : Types) (n a : ℕ) → IsTable c n → a < n ⊎ ((c.structs a).body ≡ none)
known c n a h = elim (Bool-cases (ltb a n)) [
  | inl e ↦ inl (ground (arith, e))
  | inr e ↦ inr (h a (ground (arith, e)))
]

-- A turn leaves less to do than there was with the type on the stack.
turn-remaining :
    (c : Types) (n : ℕ) (t : Ty) (w : Walk)
    → IsTable c n
    → remaining c n (turn c t w) < size t + remaining c n w
unfolding turn put_head visit_type
turn-remaining c n (primitive p) w h = omega arith
turn-remaining c n (integer i) w h = omega arith
turn-remaining c n (pointer t) w h = omega arith
turn-remaining c n (array i t) w h = omega arith
turn-remaining c n (vector i b t) w h = omega arith
turn-remaining c n (function r ps b) w h =
    omega (arith, size_all-append (to_list ps) w.state, size_all-to_list ps)
turn-remaining c n (literal_struct a ts b) w h = omega (
  arith,
  size_all-to_list ts,
  literal_struct-remaining c n a (to_list ts) b (put_head c (literal_struct a ts b) w),
)
turn-remaining c n (identified a) w h = omega (
  arith,
  body-remaining c n a (c.structs a).name (c.structs a).is_packed (c.structs a).body
      (put_head c (identified a) w) (known c n a h) refl,
)

size-positive : (t : Ty) → 0 < size t
size-positive (primitive p) = omega arith
size-positive (integer n) = omega arith
size-positive (pointer t) = omega arith
size-positive (array n t) = omega arith
size-positive (vector n b t) = omega arith
size-positive (function r ps b) = omega arith
size-positive (literal_struct a ts b) = omega arith
size-positive (identified a) = omega arith

traverse-total :
    (c : Types) (n fuel : ℕ) (ts : List Ty) (w : Walk)
    → IsTable c n
    → w.total_arity ≡ length w.result + length ts
    → size_all ts + unseen c n w.visited_structs ≤ fuel
    → (w' : Walk) × (traverse fuel c ts w ≡ some w') × (w'.total_arity ≡ length w'.result)
unfolding traverse
traverse-total c n fuel [] w h b le = (w, refl, omega (arith, b))
traverse-total c n zero (t ∷ ts) w h b le = absurd (omega (arith, size-positive t))
traverse-total c n (suc fuel) (t ∷ ts) w h b le =
    let next = turn c t (record w { state = ts }) in
    traverse-total c n fuel next.state next h (turn-Balanced c t ts w b)
      (omega (arith, turn-remaining c n t (record w { state = ts }) h))

-- If only the structs below some address have elements, then for every type and every table of
-- opaque structs the loop of constructTypeVector ends with an empty stack within as many turns
-- as the type and the elements of those structs have parts, and then the assertion that the
-- counted arity is the length of the result holds.
pub construct_type_vector-total :
    (c : Types) (n : ℕ) (t : Ty) (opaque_structs : List (String × ℕ))
    (unnamed_structs : List (ℕ × ℕ))
    → IsTable c n
    → (w : Walk) × (construct_type_vector
          (size t + unseen c n [])
          c
          (start t opaque_structs unnamed_structs)
        ≡ some w)
      × (w.total_arity ≡ length w.result)
unfolding construct_type_vector start
construct_type_vector-total c n t os us h =
    traverse-total c n _ (t ∷ []) _ h (omega arith) (omega arith)
