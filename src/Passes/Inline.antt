-- ===== src/Passes/Inline.antt =====
-- LoadInlinePass::run of lib/Transforms/CustomPasses.cpp: which instructions are marked as inlined.
use llvm2cpg.Prelude.{
  ℕ, suc, Bool, true, false, Option, none, some, List, [], ◌∷◌, ◌++◌, map, leb, if◌then◌else◌,
}
use llvm2cpg.Types.Naming.{lookup}
use llvm2cpg.Passes.Function.{
  Function, Marks, Opcode, set_metadata, is_load, bitcast_pointers, addr_space_cast,
  get_element_ptr,
}
use llvm2cpg.Passes.Uses.{◌>>=◌, Until, valid_until, used_until, is_used_outside_bb}

-- Address computations and casts of pointers to pointers are inlined in any case.
abbrev pub is_forced : Opcode → Bool
is_forced bitcast_pointers = true
is_forced addr_space_cast = true
is_forced get_element_ptr = true
is_forced _ = false

unfoldable pub force_inline : Function → List ℕ → Marks → Marks
force_inline f [] m = m
force_inline f (i ∷ rest) m =
    force_inline f rest (if is_forced (f.instruction i).opcode then set_metadata i m else m)

unfoldable pub force_inline_blocks : Function → List (ℕ × List ℕ) → Marks → Marks
unfolding force_inline
force_inline_blocks f [] m = m
force_inline_blocks f ((b, block) ∷ rest) m = force_inline_blocks f rest (force_inline f block m)

-- The variables of the loop over a block.
pub record Scan : Type 0 where
  pub first_spoiler : List (ℕ × ℕ)
  pub inst_number : List (ℕ × ℕ)
  pub unspoilt : List ℕ
  pub idx : ℕ

abbrev pub cleared : Scan
cleared = record { first_spoiler = []; inst_number = []; unspoilt = []; idx = 0 }

-- The loads that the instruction spoils, and the others.
unfoldable pub spoilt_by : Function → ℕ → List ℕ → List ℕ
spoilt_by f i [] = []
spoilt_by f i (l ∷ ls) = let rest = spoilt_by f i ls in if f.is_mod_set i l then l ∷ rest else rest

unfoldable pub kept_by : Function → ℕ → List ℕ → List ℕ
kept_by f i [] = []
kept_by f i (l ∷ ls) = let rest = kept_by f i ls in if f.is_mod_set i l then rest else l ∷ rest

abbrev pub at : ℕ → List ℕ → List (ℕ × ℕ)
at idx ls = map (λ l. (l, idx)) ls

-- A load that is used in its block only and is not volatile, by the test of the first.
unfoldable pub admit_load : ℕ → Bool → Bool → Scan → Scan
admit_load i false false s = record s { unspoilt = i ∷ s.unspoilt }
admit_load i false true s = s
admit_load i true may_write s = s

unfoldable pub admit : ℕ → Function → Marks → ℕ → Bool → Scan → Option Scan
unfolding admit_load is_used_outside_bb
admit fuel f m i false s = some s
admit fuel f m i true s = is_used_outside_bb fuel f m i >>= λ outside.
    some (admit_load i outside (f.instruction i).may_write_to_memory s)

unfoldable pub spoil : Function → ℕ → Bool → Scan → Scan
unfolding spoilt_by kept_by
spoil f i false s = s
spoil f i true s = record s {
  first_spoiler = at s.idx (spoilt_by f i s.unspoilt) ++ s.first_spoiler;
  unspoilt = kept_by f i s.unspoilt;
}

abbrev pub number : ℕ → Scan → Scan
number i s = record s { inst_number = (i, s.idx) ∷ s.inst_number }

abbrev pub next : Scan → Scan
next s = record s { idx = suc s.idx }

unfoldable pub scan : ℕ → Function → Marks → List ℕ → Scan → Option Scan
unfolding admit spoil
scan fuel f m [] s = some s
scan fuel f m (i ∷ rest) s = admit fuel f m i (is_load f i) (number i s) >>= λ s₁.
    scan fuel f m rest (next (spoil f i (f.instruction i).may_write_to_memory s₁))

-- What nothing spoils is valid to the end of the block.
abbrev pub spoilers : Scan → List (ℕ × ℕ)
spoilers s = at s.idx s.unspoilt ++ s.first_spoiler

-- std::sort on pairs of a number and an instruction with that number
unfoldable pub insert : ℕ × ℕ → List (ℕ × ℕ) → List (ℕ × ℕ)
insert p [] = p ∷ []
insert p (q ∷ qs) = let rest = insert p qs in if leb p.0 q.0 then p ∷ q ∷ qs else q ∷ rest

unfoldable pub sort : List (ℕ × ℕ) → List (ℕ × ℕ)
unfolding insert
sort [] = []
sort (p ∷ ps) = insert p (sort ps)

-- `end()` is never dereferenced: every load of the block has a number.
abbrev pub number_of : ℕ → List (ℕ × ℕ) → ℕ
number_of i inst_number = elim (lookup i inst_number) [ some n ↦ n | none ↦ 0 ]

unfoldable pub to_inline : Scan → List (ℕ × ℕ)
unfolding sort lookup
to_inline s = sort (map (λ (p : ℕ × ℕ). (number_of p.0 s.inst_number, p.0)) (spoilers s))

-- uU <= vU, where none stands for -1
abbrev pub fits : Option ℕ → Until → Bool
fits none v = true
fits (some u) v = leb u v.0

unfoldable pub inline_load : ℕ → Function → Scan → ℕ → Marks → Option Marks
unfolding valid_until used_until
inline_load fuel f s i m = valid_until fuel f m (spoilers s) i >>= λ valid.
    used_until fuel f m s.inst_number i >>= λ used.
    some (if fits used valid then set_metadata i m else m)

unfoldable pub inline_loads : ℕ → Function → Scan → List (ℕ × ℕ) → Marks → Option Marks
unfolding inline_load
inline_loads fuel f s [] m = some m
inline_loads fuel f s (p ∷ rest) m = inline_load fuel f s p.1 m >>= inline_loads fuel f s rest

unfoldable pub inline_block : ℕ → Function → List ℕ → Marks → Option Marks
unfolding scan inline_loads to_inline
inline_block fuel f block m =
    scan fuel f m block cleared >>= λ s. inline_loads fuel f s (to_inline s) m

unfoldable pub inline_blocks : ℕ → Function → List (ℕ × List ℕ) → Marks → Option Marks
unfolding inline_block
inline_blocks fuel f [] m = some m
inline_blocks fuel f ((b, block) ∷ rest) m =
    inline_block fuel f block m >>= inline_blocks fuel f rest

unfoldable pub run : ℕ → Function → Marks → Option Marks
unfolding inline_blocks force_inline_blocks
run fuel f m = inline_blocks fuel f f.blocks (force_inline_blocks f f.blocks m)
