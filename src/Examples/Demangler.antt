-- ===== src/Examples/Demangler.antt =====
-- Names of two functions, one of C++ and an intrinsic, and a cache that has the first.
use llvm2cpg.Prelude.{
  ℕ, ◌≡◌, refl, ap, subst, Option, none, some, [], ◌∷◌, ◌==◌, ==→eq, Bool-cases, inl, inr,
  if◌then◌else◌, ◌∙◌, sym, ◌⊎◌, arith, ◌≢◌,
}
use mathlib.Core.Option.{none-ne-some}
use llvm2cpg.Prelude.Each.{All}
use llvm2cpg.Types.Naming.{lookup}
use llvm2cpg.Demangler.{
  Bytes, bytes, DemangledName, Function, Cache, demangle, demangle_function_name, equal_bytes,
  extract_name_from_cxx_name,
}
use llvm2cpg.Demangler.Intrinsics.{memcpy}
use llvm2cpg.Demangler.Pieces.{Between, extract_name-Result}
use llvm2cpg.Demangler.Brackets.{Balanced}
use llvm2cpg.Demangler.Names.{template, within, cxx_name, extract_name-cxx_name}
use llvm2cpg.Demangler.Cached.{IsConsistent, name_at, names-cached}

abbrev cxa_demangle : Bytes → Option Bytes
cxa_demangle l = if equal_bytes l (bytes "_ZN1A3runEv") then some (bytes "A::run()") else none

abbrev functions : ℕ → Function
functions a = record {
  address = a;
  name = if a == 0 then "_ZN1A3runEv" else "llvm.memcpy.p0i8";
  intrinsic = if a == 0 then none else some memcpy;
}

abbrev cache : Cache
cache = (0, record { full_name = bytes "A::run()"; name = bytes "run" }) ∷ []

first_name :
    demangle cxa_demangle (functions 0) none
    ≡ some (record { full_name = bytes "A::run()"; name = bytes "run" })
unfolding demangle
first_name = refl

cache-IsConsistent : IsConsistent cxa_demangle functions cache
unfolding lookup demangle
cache-IsConsistent a n look = elim (Bool-cases (0 == a)) [
  | inl same ↦
      ap (name_at cxa_demangle functions) (sym (==→eq 0 a same))
      ∙ subst (λ t. (if t then name_at cxa_demangle functions 0 else none) ≡ some n) same look
  | inr differ ↦ absurd (
      none-ne-some n
        (subst (λ t. (if t then name_at cxa_demangle functions 0 else none) ≡ some n) differ look))
]

names-cached_example :
    (n : DemangledName) × ((later : Cache) × ((demangle_function_name cxa_demangle
            (functions 1)
            cache
          ≡ some (n, later))
        × ((demangle cxa_demangle (functions 1) (some memcpy) ≡ some n)
            × IsConsistent cxa_demangle functions later)))
names-cached_example = names-cached cxa_demangle functions 1 cache (λ b. refl) cache-IsConsistent

-- The template arguments and the type of the result go.
template_name :
    extract_name_from_cxx_name (bytes "int Foo::at<int>(unsigned (*)(int)) const")
    ≡ some (bytes "at<int>")
unfolding extract_name_from_cxx_name
template_name = refl

operator_name :
    extract_name_from_cxx_name (bytes "A::operator bool() const") ≡ some (bytes "operator bool")
unfolding extract_name_from_cxx_name
operator_name = refl

-- The bracket of an operator counts as one of template arguments, and the scope stays.
bracket_name :
    extract_name_from_cxx_name (bytes "Foo::operator<(Foo const&)") ≡ some (bytes "Foo::operator<")
unfolding extract_name_from_cxx_name
bracket_name = refl

-- `A::at<x>(f(g)) const`
pointer-Balanced : Balanced b')' b'(' (bytes "f(g)")
pointer-Balanced = Balanced.byte b'f' (bytes "(g)") (ground arith) (ground arith) (
    Balanced.nested (bytes "g") []
      (Balanced.byte b'g' [] (ground arith) (ground arith) Balanced.empty) Balanced.empty)

suffix-Unclosed : All (λ c. c ≢ b')') (bytes " const")
suffix-Unclosed = (
  ground arith,
  (ground arith, (ground arith, (ground arith, (ground arith, (ground arith, tt))))),
)

extract_name-cxx_name_example :
    extract_name_from_cxx_name
      (cxx_name (bytes "A::") (bytes "at<x>") (bytes "f(g)") (bytes " const"))
    ≡ some (bytes "at<x>")
extract_name-cxx_name_example =
    extract_name-cxx_name (bytes "A::") (bytes "at<x>") (bytes "f(g)") (bytes " const")
      (within (bytes "A"))
      (template (bytes "at") (bytes "x")
        ((ground arith, ground arith), ((ground arith, ground arith), tt))
        (Balanced.byte b'x' [] (ground arith) (ground arith) Balanced.empty))
      pointer-Balanced suffix-Unclosed

extract_name-Result_example :
    (r : Bytes) × ((extract_name_from_cxx_name (bytes "A::run()") ≡ some r)
      × ((r ≡ bytes "A::run()") ⊎ Between (bytes "A::run()") r))
extract_name-Result_example = extract_name-Result (bytes "A::run()")
