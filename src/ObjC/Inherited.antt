-- ===== src/ObjC/Inherited.antt =====
-- fillInMethods and propagateSubclassMethods of lib/CPG/ObjCTypeHierarchy.cpp end on a hierarchy
-- without cycles, and hand the methods of every class down.
use llvm2cpg.Prelude.{
  arith, ℕ, zero, suc, ◌≤◌, ◌<◌, ◌≡◌, ◌≢◌, refl, sym, ap, subst, ◌∙◌, String, true, false, Option,
  some, List, [], ◌∷◌, Bool-cases, inl, inr,
}
use text.Mathlib.Text.{◌==◌ as str_eq}
use text.Mathlib.TextEquality.{eq_iff}
use llvm2cpg.Prelude.Each.{All, In}
use llvm2cpg.ObjC.{
  Hierarchy, has_method, merged, fill_next, fill_in_methods, propagate_roots,
  propagate_subclass_methods,
}
use llvm2cpg.ObjC.Merged.{merged-override, merged-has}

abbrev pub Subclasses : Type 0
Subclasses = String → List String

-- Subclasses have lower ranks.
abbrev pub IsRanked : (String → ℕ) → Subclasses → Type 0
IsRanked rank subs = (c : String) → All (λ d. rank d < rank c) (subs c)

-- The second class has the methods of the first.
abbrev pub Inherits : Hierarchy → String → String → Type 0
Inherits h u v =
    (n : String) → has_method n (h.methods u) ≡ true → has_method n (h.methods v) ≡ true

-- The class itself, and what is below its subclasses.
pub data Below (subs : Subclasses) : String → String → Type 0 where
  self : (c : String) → Below subs c c
  down : (c d u : String) → In d (subs c) → Below subs d u → Below subs c u

module _ (rank : String → ℕ) (subs : Subclasses) (ranked : IsRanked rank subs) where
  -- Only classes below the rank change, they gain methods, and what was handed down stays.
  record Fills (top : ℕ) (h h' : Hierarchy) : Type 0 where
    subclasses : h'.subclasses ≡ subs
    above : (u : String) → top ≤ rank u → h'.methods u ≡ h.methods u
    edges : (u v : String) → In v (subs u) → Inherits h u v → Inherits h' u v

  -- Everything below a class is handed down.
  abbrev HandedDown : Hierarchy → String → Type 0
  HandedDown h c = (u v : String) → Below subs c u → In v (subs u) → Inherits h u v

  record Filled (base derived : String) (h : Hierarchy) (o : Option Hierarchy) : Type 0 where
    result : Hierarchy
    is_result : o ≡ some result
    fills : Fills (suc (rank derived)) h result
    inherits : Inherits result base derived
    below : HandedDown result derived

  record AllFilled (base : String) (cs : List String) (h : Hierarchy) (o : Option Hierarchy)
      : Type 0 where
    result : Hierarchy
    is_result : o ≡ some result
    fills : Fills (rank base) h result
    each : (c : String) → In c cs → Inherits result base c × HandedDown result c

  module _ (fill : String → String → Hierarchy → Option Hierarchy) (fuel : ℕ)
      (fill-Filled : (base derived : String) (h : Hierarchy)
        → h.subclasses ≡ subs
        → rank derived < rank base
        → rank derived < fuel
        → Filled base derived h (fill base derived h)) where
    next-AllFilled :
        (base : String) (cs : List String) (h : Hierarchy)
        → h.subclasses ≡ subs
        → rank base ≤ fuel
        → All (λ c. (rank c < rank base) × In c (subs base)) cs
        → AllFilled base cs h (fill_next fill base cs (some h))
    unfolding fill_next
    next-AllFilled base [] h same le all = record {
      result = h;
      is_result = refl;
      fills = record { subclasses = same; above = λ u at. refl; edges = λ u v i s. s };
      each = λ c i. absurd i;
    }
    next-AllFilled base (c ∷ cs) h same le all =
        let f = fill-Filled base c h same all.0.0 (omega (arith, all.0.0)) in
        let g = next-AllFilled base cs f.result f.fills.subclasses le all.1 in
        record {
          result = g.result;
          is_result = rw f.is_result g.is_result;
          fills = record {
            subclasses = g.fills.subclasses;
            above = λ u at. g.fills.above u at ∙ f.fills.above u (omega (arith, all.0.0));
            edges = λ u v i s. g.fills.edges u v i (f.fills.edges u v i s);
          };
          each = λ d i. each f g d i;
        }
      where
        each :
            (f : Filled base c h (fill base c h))
            (g : AllFilled base cs f.result (fill_next fill base cs (some f.result))) (d : String)
            → In d (c ∷ cs)
            → Inherits g.result base d × HandedDown g.result d
        each f g d (inl e) = rw e (
          g.fills.edges base c all.0.1 f.inherits,
          λ u v b i. g.fills.edges u v i (f.below u v b i),
        )
        each f g d (inr i) = g.each d i

  -- Subclasses with what is needed of them.
  subs_of : (c : String) → All (λ d. (rank d < rank c) × In d (subs c)) (subs c)
  subs_of c = go (subs c) (ranked c) (λ d i. i)
    where
      go :
          (l : List String)
          → All (λ d. rank d < rank c) l
          → ((d : String) → In d l → In d (subs c))
          → All (λ d. (rank d < rank c) × In d (subs c)) l
      go [] h k = tt
      go (d ∷ l) h k = ((h.0, k d (inl refl)), go l h.1 (λ e i. k e (inr i)))

  apart : (u v : String) → rank u ≢ rank v → str_eq u v ≡ false
  apart u v ne = elim (Bool-cases (str_eq u v)) [
    | inl same ↦ absurd (ne (ap rank ((eq_iff u v).0 same)))
    | inr differ ↦ differ
  ]

  -- The merge changes the derived class only, which gains the methods of the base.
  merged-other :
      (base derived u : String) (h : Hierarchy)
      → str_eq u derived ≡ false
      → (merged base derived h).methods u ≡ h.methods u
  merged-other base derived u h e = (merged-override base derived "" h).1 u e

  merged-grows :
      (base derived u n : String) (h : Hierarchy)
      → has_method n (h.methods u) ≡ true
      → has_method n ((merged base derived h).methods u) ≡ true
  merged-grows base derived u n h has = elim (Bool-cases (str_eq u derived)) [
    | inl same ↦
        let e = (eq_iff u derived).0 same in
        let has' : has_method n (h.methods derived) ≡ true = rw (← e) has in
        rw e ((merged-has base derived n h).1 has')
    | inr differ ↦ rw (merged-other base derived u h differ) has
  ]

  merged-edge :
      (base derived u v : String) (h : Hierarchy)
      → str_eq u derived ≡ false
      → Inherits h u v
      → Inherits (merged base derived h) u v
  merged-edge base derived u v h e s n has =
      merged-grows base derived v n h
        (s n (subst (λ ms. has_method n ms ≡ true) (merged-other base derived u h e) has))

  merged-subclasses :
      (base derived : String) (h : Hierarchy) → (merged base derived h).subclasses ≡ h.subclasses
  unfolding merged
  merged-subclasses base derived h = refl

  fill-Filled :
      (fuel : ℕ) (base derived : String) (h : Hierarchy)
      → h.subclasses ≡ subs
      → rank derived < rank base
      → rank derived < fuel
      → Filled base derived h (fill_in_methods fuel base derived h)
  unfolding fill_in_methods
  fill-Filled zero base derived h same lt le = absurd (omega arith)
  fill-Filled (suc fuel) base derived h same lt le =
      let h₁ = merged base derived h in
      let g =
        next-AllFilled (fill_in_methods fuel) fuel (fill-Filled fuel) derived (subs derived) h₁
          (merged-subclasses base derived h ∙ same) (omega arith) (subs_of derived) in
      record {
        result = g.result;
        is_result =
            ap (λ (s : Subclasses). fill_next (fill_in_methods fuel) derived (s derived) (some h₁))
              same
            ∙ g.is_result;
        fills = record {
          subclasses = g.fills.subclasses;
          above = λ u at.
              g.fills.above u (omega arith)
              ∙ merged-other base derived u h (apart u derived (omega arith));
          edges = λ u v i s. elim (Bool-cases (str_eq u derived)) [
            | inl is ↦ let e = (eq_iff u derived).0 is in rw e (g.each v (rw e at i)).0
            | inr differ ↦ g.fills.edges u v i (merged-edge base derived u v h differ s)
          ];
        };
        inherits = λ n has.
            let at_base =
              g.fills.above base (omega arith)
              ∙ merged-other base derived base h (apart base derived (omega arith)) in
            subst (λ ms. has_method n ms ≡ true) (sym (g.fills.above derived (omega arith)))
              ((merged-has base derived n h).0 (subst (λ ms. has_method n ms ≡ true) at_base has));
        below = λ u v b i. below g u v b i;
      }
    where
      below :
          (g : AllFilled derived (subs derived) (merged base derived h) (
            fill_next (fill_in_methods fuel) derived (subs derived) (some (merged base derived h))))
          (u v : String)
          → Below subs derived u
          → In v (subs u)
          → Inherits g.result u v
      below g u v (self _) i = (g.each v i).0
      below g u v (down _ d _ in_d b) i = (g.each d in_d).1 u v b i

  roots-HandedDown :
      (fuel : ℕ) (rs : List String) (h : Hierarchy)
      → h.subclasses ≡ subs
      → ((c : String) → rank c ≤ fuel)
      → (h' : Hierarchy) × (propagate_roots fuel rs (some h) ≡ some h')
        × ((u v : String) → In v (subs u) → Inherits h u v → Inherits h' u v)
        × ((r : String) → In r rs → HandedDown h' r)
  unfolding propagate_roots
  roots-HandedDown fuel [] h same le = (h, refl, λ u v i s. s, λ r i. absurd i)
  roots-HandedDown fuel (r ∷ rs) h same le =
      let g =
        next-AllFilled (fill_in_methods fuel) fuel (fill-Filled fuel) r (subs r) h same (le r)
          (subs_of r) in
      let (h', e, edges, each) = roots-HandedDown fuel rs g.result g.fills.subclasses le in
      (
        h',
        ap
              (λ (s : Subclasses).
                propagate_roots fuel rs (fill_next (fill_in_methods fuel) r (s r) (some h)))
              same
            ∙ ap (propagate_roots fuel rs) g.is_result
            ∙ e,
        λ u v i s. edges u v i (g.fills.edges u v i s),
        λ q i. all g h' edges each q i,
      )
    where
      below :
          (g : AllFilled r (subs r) h (fill_next (fill_in_methods fuel) r (subs r) (some h)))
          (u v : String)
          → Below subs r u
          → In v (subs u)
          → Inherits g.result u v
      below g u v (self _) i = (g.each v i).0
      below g u v (down _ d _ in_d b) i = (g.each d in_d).1 u v b i

      all :
          (g : AllFilled r (subs r) h (fill_next (fill_in_methods fuel) r (subs r) (some h)))
          (h' : Hierarchy)
          → ((u v : String) → In v (subs u) → Inherits g.result u v → Inherits h' u v)
          → ((q : String) → In q rs → HandedDown h' q)
          → (q : String) → In q (r ∷ rs)
          → HandedDown h' q
      all g h' edges each q (inr i) = each q i
      all g h' edges each q (inl e) = λ u v b i. edges u v i (below g u v (rw e at b) i)

-- If the subclasses of each class have a lower rank and no rank is above the fuel, then
-- propagateSubclassMethods ends, and every class that can be reached from a root class has
-- handed the names of all its methods down to each of its subclasses.
pub propagate-Inherits :
    (rank : String → ℕ) (fuel : ℕ) (h : Hierarchy)
    → IsRanked rank h.subclasses
    → ((c : String) → rank c ≤ fuel)
    → (h' : Hierarchy) × (propagate_subclass_methods fuel h ≡ some h')
      × ((r u v : String)
          → In r h.root_classes
          → Below h.subclasses r u
          → In v (h.subclasses u)
          → Inherits h' u v)
unfolding propagate_subclass_methods
propagate-Inherits rank fuel h ranked le =
    let (h', e, edges, each) =
      roots-HandedDown rank h.subclasses ranked fuel h.root_classes h refl le in
    (h', e, λ r u v i b s. each r i u v b s)
