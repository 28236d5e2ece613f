-- ===== src/Transforms/Strings.antt =====
-- What inlineGlobalStrings (lib/Transforms/Transforms.cpp) inlines for a global is a C string.
use llvm2cpg.Prelude.{
  ℕ, ◌≡◌, refl, sym, subst, Bool, true, false, Option, none, some, [], ◌∷◌, List, ◌==◌, Bool-cases,
  if◌then◌else◌, inl, inr, Option-cases, ◌++◌,
}
use mathlib.Core.Option.{some-injective, none-ne-some}
use llvm2cpg.Prelude.Chain.{◌>>=◌}
use llvm2cpg.Prelude.Each.{All}
use llvm2cpg.Types.Naming.{lookup}
use llvm2cpg.Transforms.{
  Bitcode, Value, GlobalVariable, Inlines, data_array, structure, expression, instruction,
  null_value, other_value, classify, classify_global, classify_globals, is_candidate, string_ref,
  inline_found, inline_candidate, inline_candidates, find_inlines, find_objc_string_tag_types,
}

module _ (m : Bitcode) where
  abbrev pub IsString : ℕ × ℕ → Type 0
  IsString entry = m.values entry.1 ≡ data_array true

  either :
      {A : Type 0} (P : Inlines → Type 0) (b : Bool) (inlines : Inlines) (x y : A)
      → P inlines
      → P (if◌then◌else◌ {A = Inlines × A} b (inlines, x) (inlines, y)).0
  either P true inlines x y p = p
  either P false inlines x y p = p

  abbrev Found : Type 0
  Found = Inlines × List GlobalVariable

  classify-IsString :
      (types : List ℕ) (g : GlobalVariable) (init : ℕ) (v : Value) (r : Found)
      → m.values init ≡ v
      → All IsString r.0
      → All IsString (classify m types g init v r).0
  classify-IsString types g init (data_array true) (l, gs) e all = (e, all)
  classify-IsString types g init (data_array false) (l, gs) e all = all
  classify-IsString types g init (structure vs) (l, gs) e all =
      either (All IsString) (is_candidate m types g (structure vs)) l (gs ++ (g ∷ [])) gs all
  classify-IsString types g init (expression o vs) (l, gs) e all =
      either (All IsString) (is_candidate m types g (expression o vs)) l (gs ++ (g ∷ [])) gs all
  classify-IsString types g init (instruction k vs) (l, gs) e all =
      either (All IsString) (is_candidate m types g (instruction k vs)) l (gs ++ (g ∷ [])) gs all
  classify-IsString types g init null_value (l, gs) e all =
      either (All IsString) (is_candidate m types g null_value) l (gs ++ (g ∷ [])) gs all
  classify-IsString types g init other_value (l, gs) e all =
      either (All IsString) (is_candidate m types g other_value) l (gs ++ (g ∷ [])) gs all

  global-IsString :
      (types : List ℕ) (g : GlobalVariable) (init : Option ℕ) (r : Found)
      → All IsString r.0
      → All IsString (classify_global m types g init r).0
  global-IsString types g none r all = all
  global-IsString types g (some init) r all =
      classify-IsString types g init (m.values init) r refl all

  globals-IsString :
      (types : List ℕ) (gs : List GlobalVariable) (r : Found)
      → All IsString r.0
      → All IsString (classify_globals m types gs r).0
  unfolding classify_globals
  globals-IsString types [] r all = all
  globals-IsString types (g ∷ gs) r all =
      globals-IsString types gs (classify_global m types g g.initializer r)
        (global-IsString types g g.initializer r all)

  lookup-IsString :
      (ref c : ℕ) (l : Inlines) → All IsString l → lookup ref l ≡ some c → IsString (ref, c)
  unfolding lookup
  lookup-IsString ref c [] all e = absurd (none-ne-some c e)
  lookup-IsString ref c ((g, d) ∷ l) all e = elim (Bool-cases (g == ref)) [
    | inl same ↦
        subst (λ k. IsString (ref, k))
          (some-injective d c (subst (λ t. (if t then some d else lookup ref l) ≡ some c) same e))
          all.0
    | inr differ ↦
        lookup-IsString ref c l all.1
          (subst (λ t. (if t then some d else lookup ref l) ≡ some c) differ e)
  ]

  found-IsString :
      (g : ℕ) (ref : Option ℕ) (l : Inlines)
      → All IsString l
      → All IsString (inline_found g (ref >>= λ r. lookup r l) l)
  found-IsString g none l all = all
  found-IsString g (some r) l all = elim (Option-cases (lookup r l)) [
    | inl missing ↦ subst (λ o. All IsString (inline_found g o l)) (sym missing) all
    | inr (c, at) ↦
        subst (λ o. All IsString (inline_found g o l)) (sym at) (lookup-IsString r c l all at, all)
  ]

  candidates-IsString :
      (gs : List GlobalVariable) (l : Inlines)
      → All IsString l
      → All IsString (inline_candidates m gs l)
  unfolding inline_candidates
  candidates-IsString [] l all = all
  candidates-IsString (g ∷ gs) l all =
      candidates-IsString gs (inline_candidate m g l)
        (found-IsString g.value (g.initializer >>= string_ref m) l all)

-- For every module, whatever inlineGlobalStrings inlines for a global, directly, through an
-- NSString tag or through a selector reference, is a constant array that is a C string.
pub find_inlines-IsString : (m : Bitcode) → All (IsString m) (find_inlines m)
unfolding find_inlines
find_inlines-IsString m =
    let r = classify_globals m (find_objc_string_tag_types m.struct_types) m.globals ([], []) in
    candidates-IsString m r.1 r.0
      (globals-IsString m (find_objc_string_tag_types m.struct_types) m.globals ([], []) tt)
