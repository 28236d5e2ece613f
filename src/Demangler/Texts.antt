-- ===== src/Demangler/Texts.antt =====
-- Lengths and parts of the texts of lib/Demangler/Demangler.cpp.
use llvm2cpg.Prelude.{
  ℕ, ◌≤◌, ◌≡◌, refl, sym, ap, ◌∙◌, some, [], ◌∷◌, ◌++◌, append-nil, length, length-append, arith,
}
use llvm2cpg.Demangler.{Bytes, take, drop, substr}
use llvm2cpg.Demangler.Brackets.{reverse-cons}
use mathlib.Core.List.{reverse}

pub length-reverse : (l : Bytes) → length (reverse l) ≡ length l
length-reverse [] = refl
length-reverse (c ∷ l) =
    ap length (sym (append-nil (reverse (c ∷ l))) ∙ reverse-cons c l [])
    ∙ length-append (reverse l) (c ∷ [])
    ∙ omega (arith, length-reverse l)

pub drop-append : (a b : Bytes) → drop (length a) (a ++ b) ≡ b
drop-append [] b = refl
drop-append (c ∷ a) b = drop-append a b

pub take-append : (a b : Bytes) → take (length a) (a ++ b) ≡ a
take-append [] b = refl
take-append (c ∷ a) b = ap (λ t. c ∷ t) (take-append a b)

pub substr-within :
    (position count : ℕ) (l : Bytes)
    → position ≤ length l
    → substr position count l ≡ some (take count (drop position l))
substr-within position count l le = ground arith
