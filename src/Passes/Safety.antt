-- ===== src/Passes/Safety.antt =====
-- LoadInlinePass::run of lib/Transforms/CustomPasses.cpp as a whole: the loads that it marks can be
-- read again where they are used.
use llvm2cpg.Prelude.{
  arith, ℕ, ◌≡◌, ◌≢◌, inl, inr, refl, sym, ◌∙◌, true, false, some, List, [], ◌∷◌, map, Bool-cases,
  ◌==◌, ne→==, ==→eq, eq→==, if◌then◌else◌, leb,
}
use mathlib.Core.Option.{some-injective, none-ne-some}
use llvm2cpg.Types.Naming.{lookup}
use llvm2cpg.Passes.Function.{
  Function, Marks, Opcode, is_load_opcode, All, All-each, In, IsAcyclic, AreLaidOut, is_load,
  set_metadata,
}
use llvm2cpg.Passes.Uses.{bind-some}
use llvm2cpg.Passes.Reaches.{is_used_outside_bb-inside}
use llvm2cpg.Passes.Inline.{
  Scan, scan, cleared, spoilers, insert, sort, number_of, to_inline, inline_block, inline_blocks,
  is_forced, force_inline, force_inline_blocks, run,
}
use llvm2cpg.Passes.Ends.{run-Ends}
use llvm2cpg.Passes.Scanned.{Clear, scan_lem}
use llvm2cpg.Passes.Marking.{Inside, Kept, loads-IsMarked}

lookup_self {ℓ} :
    {V : Type ℓ} (k : ℕ) (v : V) (rest : List (ℕ × V)) → lookup k ((k, v) ∷ rest) ≡ some v
unfolding lookup
lookup_self k v rest = rw (eq→== k k refl) refl

lookup_other {ℓ} :
    {V : Type ℓ} (j k : ℕ) (v : V) (rest : List (ℕ × V))
    → k ≢ j
    → lookup k ((j, v) ∷ rest) ≡ lookup k rest
unfolding lookup
lookup_other j k v rest h = rw (ne→== j k (λ e. h (sym e))) refl

-- A key that stands in the list is found, with a value that stands there too.
abbrev FindsAt : (ℕ × ℕ → Type 0) → List (ℕ × ℕ) → ℕ → ℕ → Type 0
FindsAt P l k v = (lookup k l ≡ some v) × P (k, v)

abbrev Finds : (ℕ × ℕ → Type 0) → List (ℕ × ℕ) → ℕ → Type 0
Finds P l k = (v : ℕ) × FindsAt P l k v

Finds-cons :
    (P : ℕ × ℕ → Type 0) (k : ℕ) (q : ℕ × ℕ) (l : List (ℕ × ℕ))
    → P q
    → Finds P l k
    → Finds P (q ∷ l) k
unfolding lookup
Finds-cons P k q l h f = elim (Bool-cases (q.0 == k)) [
  | inl same ↦ (q.1, (rw same refl, rw (← ==→eq q.0 k same) h))
  | inr differ ↦ (f.0, (rw differ f.1.0, f.1.1))
]

All-Finds : (P : ℕ × ℕ → Type 0) (l : List (ℕ × ℕ)) → All P l → All (λ (q : ℕ × ℕ). Finds P l q.0) l
All-Finds P [] h = tt
All-Finds P (q ∷ l) h = (
  (q.1, (lookup_self q.0 q.1 l, h.0)),
  All-each (λ p f. Finds-cons P p.0 q l h.0 f) l (All-Finds P l h.1),
)

Finds-lookup :
    (P : ℕ × ℕ → Type 0) (l : List (ℕ × ℕ)) (k v : ℕ) → All P l → lookup k l ≡ some v → P (k, v)
unfolding lookup
Finds-lookup P [] k v h e = absurd (none-ne-some v e)
Finds-lookup P (q ∷ l) k v h e = elim (Bool-cases (q.0 == k)) [
  | inl same ↦
      let e' : some q.1 ≡ some v = rw same at e in
      rw (← ==→eq q.0 k same, ← some-injective q.1 v e') h.0
  | inr differ ↦ let e' : lookup k l ≡ some v = rw differ at e in Finds-lookup P l k v h.1 e'
]

insert-All :
    (P : ℕ × ℕ → Type 0) (q : ℕ × ℕ) (l : List (ℕ × ℕ)) → P q → All P l → All P (insert q l)
unfolding insert
insert-All P q [] h k = (h, tt)
insert-All P q (r ∷ l) h k = elim (Bool-cases (leb q.0 r.0)) [
  | inl le ↦ rw le (h, k)
  | inr more ↦ rw more (k.0, insert-All P q l h k.1)
]

sort-All : (P : ℕ × ℕ → Type 0) (l : List (ℕ × ℕ)) → All P l → All P (sort l)
unfolding sort
sort-All P [] h = tt
sort-All P (q ∷ l) h = insert-All P q (sort l) h.0 (sort-All P l h.1)

map-All :
    (P : ℕ → Type 0) (nums l : List (ℕ × ℕ))
    → All (λ (q : ℕ × ℕ). P q.0) l
    → All (λ (q : ℕ × ℕ). P q.1) (map (λ (p : ℕ × ℕ). (number_of p.0 nums, p.0)) l)
map-All P nums [] h = tt
map-All P nums (q ∷ l) h = (h.0, map-All P nums l h.1)

to_inline-All :
    (P : ℕ → Type 0) (s : Scan)
    → All (λ (q : ℕ × ℕ). P q.0) (spoilers s)
    → All (λ (q : ℕ × ℕ). P q.1) (to_inline s)
unfolding to_inline
to_inline-All P s h = sort-All (λ q. P q.1) _ (map-All P s.inst_number (spoilers s) h)

-- A load that is marked may be read again at its uses.
abbrev pub IsSafe : Function → Marks → Type 0
IsSafe f m = (l : ℕ) → is_load f l ≡ true → m l ≡ true → Inside f m l × Kept f m l

-- The loads of these blocks are not marked yet.
abbrev AreFresh : Function → Marks → List (ℕ × List ℕ) → Type 0
AreFresh f m rest =
    All
      (λ (p : ℕ × List ℕ).
        (l : ℕ) → is_load f l ≡ true → (f.instruction l).parent ≡ p.0 → m l ≡ false)
      rest

module _ (n : ℕ) (f : Function) (acyclic : IsAcyclic n f) where
  users : (i : ℕ) → All (λ u. In i (f.instruction u).operands) (f.instruction i).users
  users i = All-each (λ u h. h.1) _ (acyclic.users i)

  abbrev AreFound : List (ℕ × List ℕ) → Type 0
  AreFound rest = All (λ (p : ℕ × List ℕ). lookup p.0 f.blocks ≡ some p.1) rest

  fresh_later :
      (b : ℕ) (m m' : Marks) (rest : List (ℕ × List ℕ))
      → ((l : ℕ) → (f.instruction l).parent ≢ b → m' l ≡ m l)
      → All (λ (other : ℕ × List ℕ). other.0 ≢ b) rest
      → AreFresh f m rest
      → AreFresh f m' rest
  fresh_later b m m' [] same apart h = tt
  fresh_later b m m' (p ∷ rest) same apart h = (
    λ l load parent. same l (λ e. apart.0 (sym parent ∙ e)) ∙ h.0 l load parent,
    fresh_later b m m' rest same apart.1 h.1,
  )

  block-IsSafe :
      (b : ℕ) (block : List ℕ) (rest : List (ℕ × List ℕ)) (m m' : Marks)
      → AreLaidOut f ((b, block) ∷ rest)
      → lookup b f.blocks ≡ some block
      → IsSafe f m
      → AreFresh f m ((b, block) ∷ rest)
      → inline_block n f block m ≡ some m'
      → IsSafe f m' × AreFresh f m' rest
  unfolding inline_block
  block-IsSafe b block rest m m' laid found safe fresh e =
      let (parents, distinct, apart, laid') = laid in
      let (s, e₁, e₂) = bind-some (scan n f m block cleared) _ m' e in
      let (numbers, clear) = scan_lem n f m block distinct s e₁ in
      let P : ℕ × ℕ → Type 0 = λ p. Clear n f m block distinct p.1 p.0 in
      let h =
        loads-IsMarked f users n m b block distinct found parents s numbers (to_inline s) m m'
          (to_inline-All (Finds P (spoilers s)) s (All-Finds P (spoilers s) clear))
          (record {
            inside = λ l p look x.
                is_used_outside_bb-inside f m n l x
                  (Finds-lookup P (spoilers s) l p clear look).inside;
            safe = safe;
            here = λ l load marked parent. absurd (ground (arith, fresh.0 l load parent, marked));
            others = λ l other. refl;
          })
          e₂ in
      (h.safe, fresh_later b m m' rest h.others apart fresh.1)

  blocks-IsSafe :
      (rest : List (ℕ × List ℕ)) (m m' : Marks)
      → AreLaidOut f rest
      → AreFound rest
      → IsSafe f m
      → AreFresh f m rest
      → inline_blocks n f rest m ≡ some m'
      → IsSafe f m'
  unfolding inline_blocks
  blocks-IsSafe [] m m' laid found safe fresh e = rw (← some-injective m m' e) safe
  blocks-IsSafe ((b, block) ∷ rest) m m' laid found safe fresh e =
      let (m₁, e₁, e₂) = bind-some (inline_block n f block m) (inline_blocks n f rest) m' e in
      let (safe', fresh') = block-IsSafe b block rest m m₁ laid found.0 safe fresh e₁ in
      blocks-IsSafe rest m₁ m' laid.3 found.1 safe' fresh' e₂

found_later :
    (b : ℕ) (block : List ℕ) (all rest : List (ℕ × List ℕ))
    → All (λ (other : ℕ × List ℕ). other.0 ≢ b) rest
    → All (λ (p : ℕ × List ℕ). lookup p.0 all ≡ some p.1) rest
    → All (λ (p : ℕ × List ℕ). lookup p.0 ((b, block) ∷ all) ≡ some p.1) rest
found_later b block all [] apart h = tt
found_later b block all (p ∷ rest) apart h =
    (lookup_other b p.0 block all apart.0 ∙ h.0, found_later b block all rest apart.1 h.1)

laid_out-found :
    (f : Function) (blocks : List (ℕ × List ℕ))
    → AreLaidOut f blocks
    → All (λ (p : ℕ × List ℕ). lookup p.0 blocks ≡ some p.1) blocks
laid_out-found f [] h = tt
laid_out-found f ((b, block) ∷ rest) h =
    (lookup_self b block rest, found_later b block rest rest h.2 (laid_out-found f rest h.3))

-- The loads are not marked before the pass, and not by what is marked in any case.
abbrev pub IsUnmarked : Function → Marks → Type 0
IsUnmarked f m = (l : ℕ) → is_load f l ≡ true → m l ≡ false

forced-load : (o : Opcode) → is_load_opcode o ≡ true → is_forced o ≡ false
forced-load o h = ground arith

force_inline-IsUnmarked :
    (f : Function) (block : List ℕ) (m : Marks)
    → IsUnmarked f m
    → IsUnmarked f (force_inline f block m)
unfolding force_inline
force_inline-IsUnmarked f [] m h = h
force_inline-IsUnmarked f (i ∷ rest) m h = force_inline-IsUnmarked f rest _ step
  where
    step : IsUnmarked f (if is_forced (f.instruction i).opcode then set_metadata i m else m)
    step l h' = elim (Bool-cases (is_forced (f.instruction i).opcode)) [
      | inr free ↦ rw free (h l h')
      | inl forced ↦ rw forced (elim (Bool-cases (l == i)) [
        | inr differ ↦ rw differ (h l h')
        | inl same ↦
            let no : is_forced (f.instruction i).opcode ≡ false =
              rw (← ==→eq l i same) (forced-load _ h') in
            absurd (ground (arith, no, forced))
      ])
    ]

force_inline_blocks-IsUnmarked :
    (f : Function) (blocks : List (ℕ × List ℕ)) (m : Marks)
    → IsUnmarked f m
    → IsUnmarked f (force_inline_blocks f blocks m)
unfolding force_inline_blocks
force_inline_blocks-IsUnmarked f [] m h = h
force_inline_blocks-IsUnmarked f ((b, block) ∷ rest) m h =
    force_inline_blocks-IsUnmarked f rest _ (force_inline-IsUnmarked f block m h)

unmarked-AreFresh :
    (f : Function) (m : Marks) (rest : List (ℕ × List ℕ)) → IsUnmarked f m → AreFresh f m rest
unmarked-AreFresh f m [] h = tt
unmarked-AreFresh f m (p ∷ rest) h = (λ l load parent. h l load, unmarked-AreFresh f m rest h)

-- If operands come before their users in a ranking below n, users and operands correspond,
-- blocks are laid out with distinct instructions that know their block, and no load is marked
-- before, then LoadInlinePass with fuel n ends, and for every load that it marks: what the load
-- reaches through marked instructions is in its block, and no instruction between the load and
-- what it reaches may write what the load reads.
pub run-IsSafe :
    (n : ℕ) (f : Function) (m : Marks) (acyclic : IsAcyclic n f)
    → AreLaidOut f f.blocks
    → IsUnmarked f m
    → (m' : Marks) × (run n f m ≡ some m') × IsSafe f m'
unfolding run
run-IsSafe n f m acyclic laid fresh =
    let (m', e) = run-Ends n f acyclic m in
    let forced = force_inline_blocks f f.blocks m in
    let unmarked = force_inline_blocks-IsUnmarked f f.blocks m fresh in
    (
      m',
      e,
      blocks-IsSafe n f acyclic f.blocks forced m' laid (laid_out-found f f.blocks laid)
          (λ l load marked. absurd (ground (arith, unmarked l load, marked)))
          (unmarked-AreFresh f forced f.blocks unmarked) e,
    )
