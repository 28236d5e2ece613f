-- ===== src/Declarations/Worklist.antt =====
-- The search through the debug information in recordStructInformation (lib/ProtoWriter/
-- CPGTypeEmitter.cpp) ends, and visits the types that can be reached.
use llvm2cpg.Prelude.{
  arith, ℕ, zero, suc, ◌+◌, ◌<◌, ◌≤◌, ◌≡◌, inl, inr, refl, ap, Bool, true, false, Option, none,
  some, List, [], ◌∷◌, ◌++◌, ◌==◌, ==→eq, length, length-append, Bool-cases, if◌then◌else◌,
}
use llvm2cpg.Emitter.State.{mem}
use llvm2cpg.Declarations.Debug.{
  DebugType, composite, derived, subroutine, basic, children, Search, visit_debug, enter,
  visit_unless, pop, search,
}

abbrev pub Work : Type 0
Work = List (Option ℕ)

-- The children of the types below `n` that are not visited yet.
unfoldable pub unvisited : (ℕ → DebugType) → ℕ → List ℕ → ℕ
unfolding mem
unvisited debug zero visited = 0
unvisited debug (suc n) visited =
    (if mem n visited then 0 else length (children (debug n))) + unvisited debug n visited

-- Every type in the list is below `n`.
abbrev pub AllBelow : ℕ → Work → Type 0
AllBelow n [] = Unit {0}
AllBelow n (none ∷ l) = AllBelow n l
AllBelow n (some t ∷ l) = (t < n) × AllBelow n l

AllBelow-append : (n : ℕ) (l r : Work) → AllBelow n l → AllBelow n r → AllBelow n (l ++ r)
AllBelow-append n [] r h k = k
AllBelow-append n (none ∷ l) r h k = AllBelow-append n l r h k
AllBelow-append n (some t ∷ l) r h k = (h.0, AllBelow-append n l r h.1 k)

unvisited-above :
    (debug : ℕ → DebugType) (n t : ℕ) (visited : List ℕ)
    → n ≤ t
    → unvisited debug n (t ∷ visited) ≡ unvisited debug n visited
unfolding unvisited mem
unvisited-above debug zero t visited le = refl
unvisited-above debug (suc n) t visited le =
    ground (arith, unvisited-above debug n t visited (omega arith))

unvisited-enter :
    (debug : ℕ → DebugType) (n t : ℕ) (visited : List ℕ)
    → t < n
    → mem t visited ≡ false
    → unvisited debug n visited ≡ length (children (debug t)) + unvisited debug n (t ∷ visited)
unfolding unvisited mem
unvisited-enter debug zero t visited lt h = absurd (omega arith)
unvisited-enter debug (suc n) t visited lt h = elim (Bool-cases (t == n)) [
  | inl same ↦
      let e = ==→eq t n same in
      let here : mem n visited ≡ false = rw e at h in
      rw (same, here)
        (omega (
          arith,
          ap (λ j. length (children (debug j))) e,
          unvisited-above debug n t visited (omega arith),
        ))
  | inr differ ↦
      rw differ (omega (arith, unvisited-enter debug n t visited (ground (arith, differ)) h))
]

pub visit_debug-visited :
    (debug : ℕ → DebugType) (t : ℕ) (d : DebugType) (s : Search)
    → (visit_debug debug t d s).visited ≡ s.visited
unfolding visit_debug
visit_debug-visited debug t (composite name elements) s = refl
visit_debug-visited debug t (derived is_typedef name base) s = refl
visit_debug-visited debug t (subroutine types) s = refl
visit_debug-visited debug t (basic name) s = refl

-- Types below `n` refer to types below `n`.
abbrev pub IsClosed : (ℕ → DebugType) → ℕ → Type 0
IsClosed debug n = (t : ℕ) → t < n → AllBelow n (children (debug t))

-- What is left to do.
abbrev pub left : (ℕ → DebugType) → ℕ → Work → Search → ℕ
left debug n work s = length work + unvisited debug n s.visited

-- A turn does one thing that is left.
abbrev Advances : (ℕ → DebugType) → ℕ → Work → Search → Work × Search → Type 0
Advances debug n rest s after =
    AllBelow n after.0 × (left debug n after.0 after.1 ≡ left debug n rest s)

unless-Advances :
    (debug : ℕ → DebugType) (n t : ℕ) (seen : Bool) (rest : Work) (s : Search)
    → IsClosed debug n
    → t < n
    → AllBelow n rest
    → mem t s.visited ≡ seen
    → Advances debug n rest s (visit_unless debug t seen rest s)
unfolding visit_unless
unless-Advances debug n t true rest s closed lt below e = (below, refl)
unless-Advances debug n t false rest s closed lt below e = (
  AllBelow-append n rest (children (debug t)) below (closed t lt),
  rw (visit_debug-visited debug t (debug t) (enter t s)) (
      omega
        (arith, length-append rest (children (debug t)), unvisited-enter debug n t s.visited lt e)),
)

pop-Advances :
    (debug : ℕ → DebugType) (n : ℕ) (t : Option ℕ) (rest : Work) (s : Search)
    → IsClosed debug n
    → AllBelow n (t ∷ rest)
    → Advances debug n rest s (pop debug t rest s)
unfolding pop
pop-Advances debug n none rest s closed below = (below, refl)
pop-Advances debug n (some t) rest s closed below =
    unless-Advances debug n t _ rest s closed below.0 below.1 refl

pub search-ends :
    (fuel : ℕ) (debug : ℕ → DebugType) (n : ℕ) (work : Work) (s : Search)
    → IsClosed debug n
    → AllBelow n work
    → left debug n work s ≤ fuel
    → (s' : Search) × (search fuel debug work s ≡ some s')
unfolding search
search-ends fuel debug n [] s closed below le = (s, refl)
search-ends zero debug n (t ∷ rest) s closed below le = absurd (omega arith)
search-ends (suc fuel) debug n (t ∷ rest) s closed below le =
    let (work, s₁) = pop debug t rest s in
    let (below₁, same) = pop-Advances debug n t rest s closed below in
    search-ends fuel debug n work s₁ closed below₁ (omega (arith, same))
