-- ===== src/Declarations/Reachable.antt =====
-- The search through the debug information in recordStructInformation (lib/ProtoWriter/
-- CPGTypeEmitter.cpp) visits exactly the types that can be reached.
use llvm2cpg.Prelude.{
  arith, ℕ, zero, suc, ◌≡◌, ◌⊎◌, inl, inr, refl, sym, ap, ◌∙◌, Bool, true, false, Option, none,
  some, List, [], ◌∷◌, ◌++◌, ◌==◌, ==→eq, Bool-cases, String,
}
use mathlib.Core.Option.{some-injective, none-ne-some}
use llvm2cpg.Prelude.Each.{In, In-append, In-left, In-right}
use llvm2cpg.Emitter.State.{mem}
use llvm2cpg.Declarations.Debug.{
  DebugType, composite, derived, subroutine, basic, children, Search, Aliases, visit_debug, enter,
  visit_unless, pop, search,
}
use llvm2cpg.Declarations.Worklist.{
  Work, AllBelow, IsClosed, left, visit_debug-visited, search-ends,
}

abbrev pub Occurs : ℕ → Work → Type 0
Occurs c [] = ⊥
Occurs c (none ∷ l) = Occurs c l
Occurs c (some t ∷ l) = (c ≡ t) ⊎ Occurs c l

Occurs-append : (c : ℕ) (l r : Work) → Occurs c (l ++ r) → Occurs c l ⊎ Occurs c r
Occurs-append c [] r h = inr h
Occurs-append c (none ∷ l) r h = Occurs-append c l r h
Occurs-append c (some t ∷ l) r (inl e) = inl (inl e)
Occurs-append c (some t ∷ l) r (inr i) = elim (Occurs-append c l r i) [
  | inl there ↦ inl (inr there)
  | inr later ↦ inr later
]

Occurs-left : (c : ℕ) (l r : Work) → Occurs c l → Occurs c (l ++ r)
Occurs-left c [] r h = absurd h
Occurs-left c (none ∷ l) r h = Occurs-left c l r h
Occurs-left c (some t ∷ l) r (inl e) = inl e
Occurs-left c (some t ∷ l) r (inr i) = inr (Occurs-left c l r i)

Occurs-right : (c : ℕ) (l r : Work) → Occurs c r → Occurs c (l ++ r)
Occurs-right c [] r h = h
Occurs-right c (none ∷ l) r h = Occurs-right c l r h
Occurs-right c (some t ∷ l) r h = inr (Occurs-right c l r h)

-- A type refers to the elements of a composite type, the base of a derived one, and the types of
-- the result and the parameters of a subroutine; not to the type of an array's elements.
pub data Refers : DebugType → ℕ → Type 0 where
  element :
      (n : String) (elements : Work) (c : ℕ) → Occurs c elements → Refers (composite n elements) c
  base_type : (is_typedef : Bool) (n : String) (c : ℕ) → Refers (derived is_typedef n (some c)) c
  parameter : (types : Work) (c : ℕ) → Occurs c types → Refers (subroutine types) c

children-Refers : (d : DebugType) (c : ℕ) → Occurs c (children d) → Refers d c
children-Refers (composite n elements) c i = element n elements c i
children-Refers (derived is_typedef n none) c i = absurd i
children-Refers (derived is_typedef n (some b)) c (inl e) = rw e (base_type is_typedef n b)
children-Refers (derived is_typedef n (some b)) c (inr i) = absurd i
children-Refers (subroutine types) c i = parameter types c i
children-Refers (basic n) c i = absurd i

Refers-children : (d : DebugType) (c : ℕ) → Refers d c → Occurs c (children d)
Refers-children _ _ (element n elements c i) = i
Refers-children _ _ (base_type is_typedef n c) = inl refl
Refers-children _ _ (parameter types c i) = i

-- From the roots through the types that a type refers to.
pub data Reachable (debug : ℕ → DebugType) (roots : Work) : ℕ → Type 0 where
  root : (c : ℕ) → Occurs c roots → Reachable debug roots c
  child : (t c : ℕ) → Reachable debug roots t → Refers (debug t) c → Reachable debug roots c

abbrev pub is_composite : DebugType → Bool
is_composite (composite name elements) = true
is_composite _ = false

module _ (debug : ℕ → DebugType) (roots : Work) where
  -- Seen, or still in the queue.
  abbrev Known : Work → Search → ℕ → Type 0
  Known work s c = (mem c s.visited ≡ true) ⊎ Occurs c work

  record IsSearch (work : Work) (s : Search) : Type 0 where
    visited : (v : ℕ) → mem v s.visited ≡ true → Reachable debug roots v
    queued : (c : ℕ) → Occurs c work → Reachable debug roots c
    started : (c : ℕ) → Occurs c roots → Known work s c
    closed : (v c : ℕ) → mem v s.visited ≡ true → Occurs c (children (debug v)) → Known work s c
    collected :
        (v : ℕ)
        → In v s.composite_types
        → (mem v s.visited ≡ true) × (is_composite (debug v) ≡ true)
    composites :
        (v : ℕ) → mem v s.visited ≡ true → is_composite (debug v) ≡ true → In v s.composite_types

  -- A type that is known may leave the queue.
  leave :
      (t : ℕ) (rest : Work) (s : Search)
      → mem t s.visited ≡ true
      → (c : ℕ) → Known (some t ∷ rest) s c
      → Known rest s c
  leave t rest s seen c (inl v) = inl v
  leave t rest s seen c (inr (inl e)) = inl (rw e seen)
  leave t rest s seen c (inr (inr i)) = inr i

  seen-IsSearch :
      (t : ℕ) (rest : Work) (s : Search)
      → mem t s.visited ≡ true
      → IsSearch (some t ∷ rest) s
      → IsSearch rest s
  seen-IsSearch t rest s seen h = record {
    visited = h.visited;
    queued = λ c i. h.queued c (inr i);
    started = λ c i. leave t rest s seen c (h.started c i);
    closed = λ v c seen_v i. leave t rest s seen c (h.closed v c seen_v i);
    collected = h.collected;
    composites = h.composites;
  }

  mem-enter : (v t : ℕ) (l : List ℕ) → mem v (t ∷ l) ≡ true → (v ≡ t) ⊎ (mem v l ≡ true)
  unfolding mem
  mem-enter v t l h = elim (Bool-cases (t == v)) [
    | inl same ↦ inl (sym (==→eq t v same))
    | inr differ ↦ inr (rw differ at h)
  ]

  mem_old : (v t : ℕ) (l : List ℕ) → mem v l ≡ true → mem v (t ∷ l) ≡ true
  unfolding mem
  mem_old v t l h = ground arith

  mem_new : (t : ℕ) (l : List ℕ) → mem t (t ∷ l) ≡ true
  unfolding mem
  mem_new t l = ground arith

  visited-enter :
      (t v : ℕ) (s : Search)
      → mem v (visit_debug debug t (debug t) (enter t s)).visited ≡ mem v (t ∷ s.visited)
  visited-enter t v s = ap (mem v) (visit_debug-visited debug t (debug t) (enter t s))

  -- The composite types after a visit.
  visit-collected :
      (t v : ℕ) (d : DebugType) (s : Search)
      → In v (visit_debug debug t d s).composite_types
      → In v s.composite_types ⊎ ((v ≡ t) × (is_composite d ≡ true))
  unfolding visit_debug
  visit-collected t v (composite name elements) s h =
      elim (In-append v s.composite_types (t ∷ []) h) [
        | inl old ↦ inl old
        | inr (inl e) ↦ inr (e, refl)
        | inr (inr i) ↦ absurd i
      ]
  visit-collected t v (derived is_typedef name base) s h = inl h
  visit-collected t v (subroutine types) s h = inl h
  visit-collected t v (basic name) s h = inl h

  visit-composites_old :
      (t v : ℕ) (d : DebugType) (s : Search)
      → In v s.composite_types
      → In v (visit_debug debug t d s).composite_types
  unfolding visit_debug
  visit-composites_old t v (composite name elements) s h = In-left v s.composite_types _ h
  visit-composites_old t v (derived is_typedef name base) s h = h
  visit-composites_old t v (subroutine types) s h = h
  visit-composites_old t v (basic name) s h = h

  visit-composites_new :
      (t : ℕ) (d : DebugType) (s : Search)
      → is_composite d ≡ true
      → In t (visit_debug debug t d s).composite_types
  unfolding visit_debug
  visit-composites_new t (composite name elements) s h = In-right t s.composite_types _ (inl refl)
  visit-composites_new t (derived is_typedef name base) s h = absurd (ground (arith, h))
  visit-composites_new t (subroutine types) s h = absurd (ground (arith, h))
  visit-composites_new t (basic name) s h = absurd (ground (arith, h))

  fresh-IsSearch :
      (t : ℕ) (rest : Work) (s : Search)
      → IsSearch (some t ∷ rest) s
      → IsSearch (rest ++ children (debug t)) (visit_debug debug t (debug t) (enter t s))
  fresh-IsSearch t rest s h = record {
    visited = λ v seen. elim (mem-enter v t s.visited (sym (visited-enter t v s) ∙ seen)) [
      | inl e ↦ rw e (h.queued t (inl refl))
      | inr old ↦ h.visited v old
    ];
    queued = λ c i. elim (Occurs-append c rest (children (debug t)) i) [
      | inl there ↦ h.queued c (inr there)
      | inr new ↦ child t c (h.queued t (inl refl)) (children-Refers (debug t) c new)
    ];
    started = λ c i. moves c (h.started c i);
    closed = λ v c seen i. elim (mem-enter v t s.visited (sym (visited-enter t v s) ∙ seen)) [
      | inl e ↦ inr (Occurs-right c rest _ (rw e at i))
      | inr old ↦ moves c (h.closed v c old i)
    ];
    collected = λ v i. elim (visit-collected t v (debug t) (enter t s) i) [
      | inl old ↦
          let (seen, is) = h.collected v old in
          (visited-enter t v s ∙ mem_old v t s.visited seen, is)
      | inr (e, is) ↦ (visited-enter t v s ∙ rw e (mem_new t s.visited), rw e is)
    ];
    composites = λ v seen is. elim (mem-enter v t s.visited (sym (visited-enter t v s) ∙ seen)) [
      | inl e ↦ rw e (visit-composites_new t (debug t) (enter t s) (rw e at is))
      | inr old ↦ visit-composites_old t v (debug t) (enter t s) (h.composites v old is)
    ];
  }
    where
      moves :
          (c : ℕ)
          → Known (some t ∷ rest) s c
          → Known (rest ++ children (debug t)) (visit_debug debug t (debug t) (enter t s)) c
      moves c (inl old) = inl (visited-enter t c s ∙ mem_old c t s.visited old)
      moves c (inr (inl e)) = inl (visited-enter t c s ∙ rw e (mem_new t s.visited))
      moves c (inr (inr i)) = inr (Occurs-left c rest _ i)

  unless-IsSearch :
      (t : ℕ) (seen : Bool) (rest : Work) (s : Search)
      → mem t s.visited ≡ seen
      → IsSearch (some t ∷ rest) s
      → let (work, s₁) = visit_unless debug t seen rest s in IsSearch work s₁
  unfolding visit_unless
  unless-IsSearch t true rest s e h = seen-IsSearch t rest s e h
  unless-IsSearch t false rest s e h = fresh-IsSearch t rest s h

  pop-IsSearch :
      (t : Option ℕ) (rest : Work) (s : Search)
      → IsSearch (t ∷ rest) s
      → let (work, s₁) = pop debug t rest s in IsSearch work s₁
  unfolding pop
  pop-IsSearch none rest s h = record {
    visited = h.visited;
    queued = h.queued;
    started = h.started;
    closed = h.closed;
    collected = h.collected;
    composites = h.composites;
  }
  pop-IsSearch (some t) rest s h = unless-IsSearch t _ rest s refl h

  search-IsSearch :
      (fuel : ℕ) (work : Work) (s s' : Search)
      → search fuel debug work s ≡ some s'
      → IsSearch work s
      → IsSearch [] s'
  unfolding search
  search-IsSearch fuel [] s s' e h = rw (← some-injective s s' e) h
  search-IsSearch zero (t ∷ rest) s s' e h = absurd (none-ne-some s' e)
  search-IsSearch (suc fuel) (t ∷ rest) s s' e h =
      let (work, s₁) = pop debug t rest s in
      search-IsSearch fuel work s₁ s' e (pop-IsSearch t rest s h)

  seen_reachable :
      (s : Search) → IsSearch [] s → (v : ℕ) → Reachable debug roots v → mem v s.visited ≡ true
  seen_reachable s h v (root _ i) = known v (h.started v i)
    where
      known : (c : ℕ) → Known [] s c → mem c s.visited ≡ true
      known c (inl seen) = seen
      known c (inr i) = absurd i
  seen_reachable s h v (child t _ r i) =
      known v (h.closed t v (seen_reachable s h t r) (Refers-children (debug t) v i))
    where
      known : (c : ℕ) → Known [] s c → mem c s.visited ≡ true
      known c (inl seen) = seen
      known c (inr i) = absurd i

abbrev pub begun : Aliases → Search
begun aliases = record { visited = []; composite_types = []; aliases = aliases }

begun-IsSearch :
    (debug : ℕ → DebugType) (roots : Work) (aliases : Aliases)
    → IsSearch debug roots roots (begun aliases)
unfolding mem
begun-IsSearch debug roots aliases = record {
  visited = λ v seen. absurd (ground (arith, seen));
  queued = λ c i. root c i;
  started = λ c i. inr i;
  closed = λ v c seen i. absurd (ground (arith, seen));
  collected = λ v i. absurd i;
  composites = λ v seen is. absurd (ground (arith, seen));
}

-- The composite types that were collected are those that can be reached.
abbrev pub Collects : (ℕ → DebugType) → Work → List ℕ → Type 0
Collects debug roots l =
    (v : ℕ)
    → (In v l → Reachable debug roots v × (is_composite (debug v) ≡ true))
      × (Reachable debug roots v → is_composite (debug v) ≡ true → In v l)

-- If the debug types below n refer to types below n, then the loop of recordStructInformation
-- ends within as many turns as there are roots and references, and the composite types that it
-- collects are exactly those that can be reached from the roots, through the elements of
-- composite types, the base types of derived types, and the types of results and parameters.
pub search-Collects :
    (debug : ℕ → DebugType) (n : ℕ) (roots : Work) (aliases : Aliases)
    → IsClosed debug n
    → AllBelow n roots
    → (s : Search) × (search (left debug n roots (begun aliases)) debug roots (begun aliases)
        ≡ some s)
      × Collects debug roots s.composite_types
search-Collects debug n roots aliases closed below =
    let start = begun aliases in
    let (s, e) =
      search-ends (left debug n roots start) debug n roots start closed below (omega arith) in
    let h = search-IsSearch debug roots _ roots start s e (begun-IsSearch debug roots aliases) in
    (
      s,
      e,
      λ v. (
        λ i. let (seen, is) = h.collected v i in (h.visited v seen, is),
        λ r is. h.composites v (seen_reachable debug roots s h v r) is,
      ),
    )
