-- ===== src/Demangler/Brackets.antt =====
-- The loops over brackets and to the colon in extractNameFromCXXName (lib/Demangler/Demangler.cpp),
-- which read a text from its end.
use llvm2cpg.Prelude.{
  ℕ, suc, ◌≡◌, ◌≢◌, refl, sym, ap, ◌∙◌, false, [], ◌∷◌, ◌++◌, append_assoc, eq→==, ne→==, subst,
}
use llvm2cpg.Prelude.Each.{All}
use llvm2cpg.Demangler.{Bytes, pos, skip_balanced, skip_to_colon, skip_to_paren}
use mathlib.Core.List.{reverse, reverse-append}

pub reverse-prepend : (l r t : Bytes) → reverse (l ++ r) ++ t ≡ reverse r ++ (reverse l ++ t)
reverse-prepend l r t =
    ap (λ u. u ++ t) (reverse-append l r) ∙ append_assoc (reverse r) (reverse l) t

pub reverse-cons : (c : ℕ) (l t : Bytes) → reverse (c ∷ l) ++ t ≡ reverse l ++ (c ∷ t)
reverse-cons c l t = reverse-prepend (c ∷ []) l t

-- Texts whose brackets are nested, of one kind.
pub data Balanced (closing opening : ℕ) : Bytes → Type 0 where
  empty : Balanced closing opening []
  byte :
      (c : ℕ) (l : Bytes)
      → c ≢ closing
      → c ≢ opening
      → Balanced closing opening l
      → Balanced closing opening (c ∷ l)
  nested :
      (k l : Bytes)
      → Balanced closing opening k
      → Balanced closing opening l
      → Balanced closing opening (opening ∷ (k ++ (closing ∷ l)))

module _ (closing opening : ℕ) (apart : opening ≢ closing) where
  closed :
      (n : ℕ) (r : Bytes)
      → skip_balanced closing opening (pos n) (closing ∷ r)
        ≡ skip_balanced closing opening (pos (suc n)) r
  unfolding skip_balanced
  closed n r = rw (eq→== closing closing refl) refl

  opened :
      (n : ℕ) (r : Bytes)
      → skip_balanced closing opening (pos (suc (suc n))) (opening ∷ r)
        ≡ skip_balanced closing opening (pos (suc n)) r
  unfolding skip_balanced
  opened n r = rw (ne→== opening closing apart, eq→== opening opening refl) refl

  open_last : (r : Bytes) → skip_balanced closing opening (pos 1) (opening ∷ r) ≡ (pos 0, r)
  unfolding skip_balanced
  open_last r = rw (ne→== opening closing apart, eq→== opening opening refl) refl

  other :
      (c n : ℕ) (r : Bytes)
      → c ≢ closing
      → c ≢ opening
      → skip_balanced closing opening (pos (suc n)) (c ∷ r)
        ≡ skip_balanced closing opening (pos (suc n)) r
  unfolding skip_balanced
  other c n r a b = rw (ne→== c closing a, ne→== c opening b) refl

  -- A byte that is no bracket is one step.
  pub skip-other :
      (c : ℕ) (r : Bytes)
      → c ≢ closing
      → c ≢ opening
      → skip_balanced closing opening (pos 0) (c ∷ r) ≡ (pos 0, r)
  unfolding skip_balanced
  skip-other c r a b = rw (ne→== c closing a, ne→== c opening b) refl

  skip-Balanced :
      (l : Bytes)
      → Balanced closing opening l
      → (n : ℕ) (r : Bytes)
      → skip_balanced closing opening (pos (suc n)) (reverse l ++ r)
        ≡ skip_balanced closing opening (pos (suc n)) r
  skip-Balanced [] empty n r = refl
  skip-Balanced (c ∷ l) (byte _ _ a b balanced) n r =
      ap (skip_balanced closing opening (pos (suc n))) (reverse-cons c l r)
      ∙ skip-Balanced l balanced n (c ∷ r)
      ∙ other c n r a b
  skip-Balanced _ (nested k l inner balanced) n r =
      ap (skip_balanced closing opening (pos (suc n))) (
        reverse-cons opening (k ++ (closing ∷ l)) r
        ∙ reverse-prepend k (closing ∷ l) (opening ∷ r)
        ∙ reverse-cons closing l (reverse k ++ (opening ∷ r)))
      ∙ skip-Balanced l balanced n (closing ∷ (reverse k ++ (opening ∷ r)))
      ∙ closed (suc n) (reverse k ++ (opening ∷ r))
      ∙ skip-Balanced k inner (suc n) (opening ∷ r)
      ∙ opened n r

  -- The whole bracket is skipped.
  pub skip-brackets :
      (l r : Bytes)
      → Balanced closing opening l
      → skip_balanced closing opening (pos 0) (closing ∷ (reverse l ++ (opening ∷ r))) ≡ (pos 0, r)
  skip-brackets l r balanced =
      closed 0 (reverse l ++ (opening ∷ r)) ∙ skip-Balanced l balanced 0 (opening ∷ r) ∙ open_last r

-- Neither the colon nor the space.
abbrev pub Plain : Bytes → Type 0
Plain = All (λ c. (c ≢ b':') × (c ≢ b' '))

-- Where the loop to the colon stops.
pub data Stops : Bytes → Type 0 where
  at_end : Stops []
  at_colon : (t : Bytes) → Stops (b':' ∷ t)

stop-Stops : (t : Bytes) → Stops t → skip_to_colon t false ≡ (false, t)
unfolding skip_to_colon
stop-Stops [] at_end = refl
stop-Stops _ (at_colon t) = refl

pub skip_to_colon-Plain :
    (r t : Bytes) → Plain r → Stops t → skip_to_colon (r ++ t) false ≡ (false, t)
unfolding skip_to_colon
skip_to_colon-Plain [] t plain stops = stop-Stops t stops
skip_to_colon-Plain (c ∷ r) t plain stops =
    rw (ne→== c b':' plain.0.0, ne→== c b' ' plain.0.1) (skip_to_colon-Plain r t plain.1 stops)

pub skip_to_paren-suffix :
    (r t : Bytes) → All (λ c. c ≢ b')') r → skip_to_paren (r ++ (b')' ∷ t)) ≡ b')' ∷ t
unfolding skip_to_paren
skip_to_paren-suffix [] t all = refl
skip_to_paren-suffix (c ∷ r) t all = rw (ne→== c b')' all.0) (skip_to_paren-suffix r t all.1)

pub All-append : (P : ℕ → Type 0) (xs ys : Bytes) → All P xs → All P ys → All P (xs ++ ys)
All-append P [] ys a b = b
All-append P (x ∷ xs) ys a b = (a.0, All-append P xs ys a.1 b)

pub All-reverse : (P : ℕ → Type 0) (xs : Bytes) → All P xs → All P (reverse xs)
All-reverse P [] a = tt
All-reverse P (x ∷ xs) a =
    subst (All P) (sym (reverse-append (x ∷ []) xs))
      (All-append P (reverse xs) (x ∷ []) (All-reverse P xs a.1) (a.0, tt))
