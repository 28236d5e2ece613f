-- ===== src/Demangler/Names.antt =====
-- extractNameFromCXXName (lib/Demangler/Demangler.cpp) gives back the name that a text was put
-- together from.
use llvm2cpg.Prelude.{
  ℕ, ◌+◌, ◌-◌, ◌≤◌, ◌≡◌, ◌≢◌, refl, sym, ap, ◌∙◌, false, [], ◌∷◌, ◌++◌, append-nil, length,
  length-append, some, arith, subst,
}
use llvm2cpg.Prelude.Each.{All}
use llvm2cpg.Demangler.{
  Bytes, pos, take, drop, substr, unless_empty, strip_return_type, name_between, name_before,
  name_after_args, name_from_paren, skip_balanced, skip_to_colon, skip_to_paren,
  extract_name_from_cxx_name,
}
use llvm2cpg.Prelude.Chain.{◌>>=◌}
use llvm2cpg.Demangler.Texts.{length-reverse, drop-append, take-append, substr-within}
use llvm2cpg.Demangler.Brackets.{
  reverse-prepend, reverse-cons, Balanced, skip-other, skip-brackets, Plain, Stops, at_end,
  at_colon, skip_to_colon-Plain, skip_to_paren-suffix, All-reverse,
}
use mathlib.Core.List.{reverse}

-- Nothing, or the names of scopes and the two colons.
pub data Scope : Bytes → Type 0 where
  global : Scope []
  within : (s : Bytes) → Scope (s ++ (b':' ∷ b':' ∷ []))

-- An identifier, or one with template arguments, whose brackets are nested.
pub data FunctionName : Bytes → Type 0 where
  identifier :
      (f : Bytes) (last : ℕ) → Plain f → last ≢ b'>' → last ≢ b'<' → FunctionName (f ++ (last ∷ []))
  template :
      (f arguments : Bytes)
      → Plain f
      → Balanced b'>' b'<' arguments
      → FunctionName (f ++ (b'<' ∷ (arguments ++ (b'>' ∷ []))))

FunctionName-length : (name : Bytes) → FunctionName name → 1 ≤ length name
FunctionName-length _ (identifier f last plain a b) = omega (arith, length-append f (last ∷ []))
FunctionName-length _ (template f arguments plain balanced) =
    omega (arith, length-append f (b'<' ∷ (arguments ++ (b'>' ∷ []))))

Scope-Stops : (scope : Bytes) → Scope scope → Stops (reverse scope)
Scope-Stops [] global = at_end
Scope-Stops _ (within s) =
    subst Stops
      (sym (
        sym (append-nil (reverse (s ++ (b':' ∷ b':' ∷ []))))
        ∙ reverse-prepend s (b':' ∷ b':' ∷ []) []))
      (at_colon (b':' ∷ (reverse s ++ [])))

-- The loops to the colon pass the name.
skip-FunctionName :
    (name t : Bytes)
    → FunctionName name
    → Stops t
    → skip_to_colon (skip_balanced b'>' b'<' (pos 0) (reverse name ++ t)).1 false ≡ (false, t)
skip-FunctionName _ t (identifier f last plain a b) stops =
    ap (λ u. skip_to_colon (skip_balanced b'>' b'<' (pos 0) u).1 false)
      (reverse-prepend f (last ∷ []) t)
    ∙ ap (λ r. skip_to_colon r.1 false)
        (skip-other b'>' b'<' (ground arith) last (reverse f ++ t) a b)
    ∙ skip_to_colon-Plain (reverse f) t (All-reverse _ f plain) stops
skip-FunctionName _ t (template f arguments plain balanced) stops =
    ap (λ u. skip_to_colon (skip_balanced b'>' b'<' (pos 0) u).1 false)
      (reverse-prepend f (b'<' ∷ (arguments ++ (b'>' ∷ []))) t
        ∙ reverse-cons b'<' (arguments ++ (b'>' ∷ [])) (reverse f ++ t)
        ∙ reverse-prepend arguments (b'>' ∷ []) (b'<' ∷ (reverse f ++ t)))
    ∙ ap (λ r. skip_to_colon r.1 false)
        (skip-brackets b'>' b'<' (ground arith) arguments (reverse f ++ t) balanced)
    ∙ skip_to_colon-Plain (reverse f) t (All-reverse _ f plain) stops

unless_empty-some : (name whole : Bytes) → 1 ≤ length name → unless_empty name whole ≡ name
unless_empty-some [] whole le = absurd (omega arith)
unless_empty-some (c ∷ name) whole le = refl

after_args-before :
    (whole name_end : Bytes)
    → 1 ≤ length name_end
    → name_after_args whole (pos 0, name_end) ≡ name_before whole name_end
unfolding name_after_args
after_args-before whole [] le = absurd (omega arith)
after_args-before whole (c ∷ r) le = refl

module _ (scope name rest : Bytes) (is_scope : Scope scope) (is_name : FunctionName name) where
  abbrev name_end : Bytes
  name_end = reverse name ++ reverse scope

  name_end-length : length name_end ≡ length name + length scope
  name_end-length =
      length-append (reverse name) (reverse scope)
      ∙ omega (arith, length-reverse name, length-reverse scope)

  substr-name :
      substr
        (length (reverse scope))
        (length name_end - length (reverse scope))
        (scope ++ (name ++ rest))
      ≡ some name
  substr-name =
      substr-within (length (reverse scope)) _ (scope ++ (name ++ rest))
        (omega (arith, length-reverse scope, length-append scope (name ++ rest)))
      ∙ ap some (
          ap (λ n. take (length name_end - n) (drop n (scope ++ (name ++ rest))))
            (length-reverse scope)
          ∙ ap (take (length name_end - length scope)) (drop-append scope (name ++ rest))
          ∙ ap (λ n. take n (name ++ rest)) (omega (arith, name_end-length))
          ∙ take-append name rest)

  between-name : name_between (scope ++ (name ++ rest)) name_end (false, reverse scope) ≡ some name
  unfolding name_between strip_return_type
  between-name =
      ap
        (λ o.
          o >>= strip_return_type false >>= λ n. some (unless_empty n (scope ++ (name ++ rest))))
        substr-name
      ∙ ap some
          (unless_empty-some name (scope ++ (name ++ rest)) (FunctionName-length name is_name))

  pub before-name : name_before (scope ++ (name ++ rest)) name_end ≡ some name
  unfolding name_before
  before-name =
      ap (name_between (scope ++ (name ++ rest)) name_end)
        (skip-FunctionName name (reverse scope) is_name (Scope-Stops scope is_scope))
      ∙ between-name

-- A text: scope, name, the parameters in parens, and a suffix such as " const".
abbrev pub cxx_name : Bytes → Bytes → Bytes → Bytes → Bytes
cxx_name scope name parameters suffix = scope ++ (name ++ (b'(' ∷ (parameters ++ (b')' ∷ suffix))))

reverse-cxx_name :
    (scope name parameters suffix : Bytes)
    → reverse (cxx_name scope name parameters suffix)
      ≡ reverse suffix ++ (b')' ∷ (reverse parameters ++ (b'(' ∷ (reverse name ++ reverse scope))))
reverse-cxx_name scope name parameters suffix =
    sym (append-nil (reverse (cxx_name scope name parameters suffix)))
    ∙ reverse-prepend scope _ []
    ∙ reverse-prepend name _ (reverse scope ++ [])
    ∙ reverse-cons b'(' (parameters ++ (b')' ∷ suffix)) (reverse name ++ (reverse scope ++ []))
    ∙ reverse-prepend parameters (b')' ∷ suffix) (b'(' ∷ (reverse name ++ (reverse scope ++ [])))
    ∙ reverse-cons b')' suffix _
    ∙ ap (λ t. reverse suffix ++ (b')' ∷ (reverse parameters ++ (b'(' ∷ (reverse name ++ t)))))
        (append-nil (reverse scope))

-- If a text is put together from nothing or a scope and two colons, a name, parameters in
-- parens and a suffix, where the name has no colon or space but in its template arguments, ends
-- with no bracket but that of these, the brackets and parens are nested, and the suffix has no
-- closing paren, then extractNameFromCXXName gives the name back, with its template arguments.
pub extract_name-cxx_name :
    (scope name parameters suffix : Bytes)
    → Scope scope
    → FunctionName name
    → Balanced b')' b'(' parameters
    → All (λ c. c ≢ b')') suffix
    → extract_name_from_cxx_name (cxx_name scope name parameters suffix) ≡ some name
unfolding extract_name_from_cxx_name name_from_paren
extract_name-cxx_name scope name parameters suffix is_scope is_name balanced all =
    let whole = cxx_name scope name parameters suffix in
    let e = name_end scope name (b'(' ∷ (parameters ++ (b')' ∷ suffix))) is_scope is_name in
    ap (λ t. name_from_paren whole (skip_to_paren t))
      (reverse-cxx_name scope name parameters suffix)
    ∙ ap (name_from_paren whole)
        (skip_to_paren-suffix (reverse suffix) _ (All-reverse _ suffix all))
    ∙ ap (name_after_args whole) (skip-brackets b')' b'(' (ground arith) parameters e balanced)
    ∙ after_args-before whole e (
        omega (
          arith,
          name_end-length scope name (b'(' ∷ (parameters ++ (b')' ∷ suffix))) is_scope is_name,
          FunctionName-length name is_name,
        ))
    ∙ before-name scope name (b'(' ∷ (parameters ++ (b')' ∷ suffix))) is_scope is_name
