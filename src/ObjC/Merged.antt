-- ===== src/ObjC/Merged.antt =====
-- The methods of a derived class over those of its base: the maps in fillInMethods of
-- lib/CPG/ObjCTypeHierarchy.cpp.
use llvm2cpg.Prelude.{
  arith, ℕ, ◌≡◌, refl, ◌∙◌, String, Bool, true, false, Option, none, some, [], ◌∷◌, Bool-cases, inl,
  inr, if◌then◌else◌,
}
use text.Mathlib.Text.{◌==◌ as str_eq}
use text.Mathlib.TextEquality.{eq_iff}
use llvm2cpg.ObjC.{Method, Methods, Hierarchy, has_method, assign, assign_all, merged}

-- The function of the first method of that name, and of the last.
abbrev pub find_function : String → Methods → Option ℕ
find_function n [] = none
find_function n (m ∷ ms) = if str_eq m.name n then some m.function else find_function n ms

abbrev pub or_else : Option ℕ → Option ℕ → Option ℕ
or_else (some f) o = some f
or_else none o = o

abbrev pub last_function : String → Methods → Option ℕ
last_function n [] = none
last_function n (m ∷ ms) =
    or_else (last_function n ms) (if str_eq m.name n then some m.function else none)

find-assign :
    (n : String) (m : Method) (l : Methods)
    → find_function n (assign m l)
      ≡ (if str_eq m.name n then some m.function else find_function n l)
unfolding assign
find-assign n m [] = refl
find-assign n m (k ∷ ks) =
    ground (arith, eq_iff m.name n, eq_iff k.name m.name, eq_iff k.name n, find-assign n m ks)

or_else_assoc : (a b c : Option ℕ) → or_else a (or_else b c) ≡ or_else (or_else a b) c
or_else_assoc none b c = refl
or_else_assoc (some f) b c = refl

find-assign_all :
    (n : String) (ms l : Methods)
    → find_function n (assign_all ms l) ≡ or_else (last_function n ms) (find_function n l)
unfolding assign_all
find-assign_all n [] l = refl
find-assign_all n (m ∷ ms) l =
    find-assign_all n ms (assign m l)
    ∙ rw (find-assign n m l)
        (step (str_eq m.name n) (last_function n ms) m.function (find_function n l))
  where
    step :
        (b : Bool) (o : Option ℕ) (f : ℕ) (rest : Option ℕ)
        → or_else o (if b then some f else rest)
          ≡ or_else (or_else o (if b then some f else none)) rest
    step b none f rest = ground arith
    step b (some g) f rest = refl

-- After the maps of fillInMethods were filled, a name stands in the derived class for the
-- function that it had there last, and otherwise for the one that it had last in the base; no
-- other class has changed.
pub merged-override :
    (base derived n : String) (h : Hierarchy)
    → (find_function n ((merged base derived h).methods derived)
        ≡ or_else (last_function n (h.methods derived)) (last_function n (h.methods base)))
      × ((c : String) → str_eq c derived ≡ false → (merged base derived h).methods c ≡ h.methods c)
unfolding merged
merged-override base derived n h = (
  rw ((eq_iff derived derived).1 refl) (
      find-assign_all n (h.methods derived) (assign_all (h.methods base) [])
      ∙ rw (find-assign_all n (h.methods base) [])
          (at_end (last_function n (h.methods derived)) _)),
  λ c apart. rw apart refl,
)
  where
    at_end : (a b : Option ℕ) → or_else a (or_else b none) ≡ or_else a b
    at_end a none = refl
    at_end a (some f) = refl

has-assign :
    (n : String) (m : Method) (l : Methods)
    → has_method n (assign m l) ≡ (if str_eq m.name n then true else has_method n l)
unfolding assign has_method
has-assign n m [] = refl
has-assign n m (k ∷ ks) =
    ground (arith, eq_iff m.name n, eq_iff k.name m.name, eq_iff k.name n, has-assign n m ks)

-- What was there stays, and what is assigned is there.
has-assign_all_old :
    (n : String) (ms l : Methods) → has_method n l ≡ true → has_method n (assign_all ms l) ≡ true
unfolding assign_all
has-assign_all_old n [] l h = h
has-assign_all_old n (m ∷ ms) l h =
    has-assign_all_old n ms (assign m l) (ground (arith, has-assign n m l, h))

has-assign_all_new :
    (n : String) (ms l : Methods) → has_method n ms ≡ true → has_method n (assign_all ms l) ≡ true
unfolding assign_all has_method
has-assign_all_new n [] l h = absurd (ground (arith, h))
has-assign_all_new n (m ∷ ms) l h = elim (Bool-cases (str_eq m.name n)) [
  | inl same ↦ has-assign_all_old n ms (assign m l) (ground (arith, has-assign n m l, same))
  | inr differ ↦ has-assign_all_new n ms (assign m l) (rw differ at h)
]

-- A class has each method of its base and each of its own after the merge.
pub merged-has :
    (base derived n : String) (h : Hierarchy)
    → (has_method n (h.methods base) ≡ true
        → has_method n ((merged base derived h).methods derived) ≡ true)
      × (has_method n (h.methods derived) ≡ true
          → has_method n ((merged base derived h).methods derived) ≡ true)
unfolding merged
merged-has base derived n h =
    let same = (eq_iff derived derived).1 refl in
    (
      λ has. rw same (
          has-assign_all_old n (h.methods derived) (assign_all (h.methods base) [])
            (has-assign_all_new n (h.methods base) [] has)),
      λ has.
          rw same (has-assign_all_new n (h.methods derived) (assign_all (h.methods base) []) has),
    )
