-- ===== src/Demangler/Cached.antt =====
-- The cache of CPGDemangler (lib/Demangler/CPGDemangler.cpp): it changes no answer.
use llvm2cpg.Prelude.{
  ◌∷◌, ℕ, ◌≡◌, refl, sym, ap, ◌∙◌, Option, none, some, ◌==◌, ==→eq, Bool-cases, inl, inr, subst,
  if◌then◌else◌,
}
use llvm2cpg.Types.Naming.{lookup}
use llvm2cpg.Prelude.Chain.{◌>>=◌}
use llvm2cpg.Demangler.Intrinsics.{Intrinsic, intrinsic_name}
use llvm2cpg.Demangler.Pieces.{extract_name-Result}
use llvm2cpg.Demangler.{
  ManglingType, unknown, cxx, objc, bytes, name_of_result, extract_name, extract_full_name,
  demangle_string, Bytes, DemangledName, Function, Cache, demangle, demangle_found,
  demangle_function_name,
}

text-named :
    (type : ManglingType) (text : Bytes) → (n : Bytes) × (name_of_result type text ≡ some n)
text-named unknown text = (text, refl)
text-named cxx text = let (n, (e, found)) = extract_name-Result text in (n, e)
text-named objc text = (text, refl)

demangle-named :
    (cxa_demangle : Bytes → Option Bytes) (f : Function) (intrinsic : Option Intrinsic)
    → (n : DemangledName) × (demangle cxa_demangle f intrinsic ≡ some n)
unfolding demangle extract_name
demangle-named cxa_demangle f none =
    let r = demangle_string cxa_demangle (bytes f.name) in
    let full = extract_full_name cxa_demangle (bytes f.name) in
    let (text, e) = text-named r.type r.result in
    (
      record { full_name = full; name = text },
      ap (λ o. o >>= λ t. some (record { full_name = full; name = t })) e,
    )
demangle-named cxa_demangle f (some i) =
    (record { full_name = bytes f.name; name = bytes (intrinsic_name i f.name) }, refl)

-- The functions by their addresses, and the demangler of the ABI.
module _ (cxa_demangle : Bytes → Option Bytes) (functions : ℕ → Function) where
  abbrev pub name_at : ℕ → Option DemangledName
  name_at a = demangle cxa_demangle (functions a) (functions a).intrinsic

  abbrev pub IsConsistent : Cache → Type 0
  IsConsistent cache = (a : ℕ) (n : DemangledName) → lookup a cache ≡ some n → name_at a ≡ some n

  abbrev Answers : ℕ → Option (DemangledName × Cache) → Type 0
  Answers a o =
      (n : DemangledName) × ((later : Cache) × ((o ≡ some (n, later))
          × ((name_at a ≡ some n) × IsConsistent later)))

  found-Answers :
      (a : ℕ) (cache : Cache) (found : Option DemangledName)
      → (functions a).address ≡ a
      → IsConsistent cache
      → lookup a cache ≡ found
      → Answers a (demangle_found cxa_demangle (functions a) found cache)
  unfolding demangle_found lookup
  found-Answers a cache (some n) at consistent look =
      (n, (cache, (refl, (consistent a n look, consistent))))
  found-Answers a cache none at consistent look =
      let (n, e) = demangle-named cxa_demangle (functions a) (functions a).intrinsic in
      (
        n,
        (
          ((functions a).address, n) ∷ cache,
          (
            ap (λ o. o >>= λ k. some (k, ((functions a).address, k) ∷ cache)) e,
            (
              e,
              λ b k look_b. elim (Bool-cases ((functions a).address == b)) [
                | inl same ↦
                    ap name_at (sym (sym at ∙ ==→eq _ b same))
                    ∙ e
                    ∙ subst (λ t. (if t then some n else lookup b cache) ≡ some k) same look_b
                | inr differ ↦
                    consistent b k
                      (subst (λ t. (if t then some n else lookup b cache) ≡ some k) differ look_b)
              ],
            ),
          ),
        ),
      )

-- If functions are told apart by their addresses, and each name in the cache is the one that
-- its function demangles to, then demangleFunctionName does not throw, answers with the name
-- that its function demangles to without the cache, and each name in the cache that it leaves
-- is again of its function.
pub names-cached :
    (cxa_demangle : Bytes → Option Bytes) (functions : ℕ → Function) (a : ℕ) (cache : Cache)
    → ((b : ℕ) → (functions b).address ≡ b)
    → IsConsistent cxa_demangle functions cache
    → (n : DemangledName) × ((later : Cache) × ((demangle_function_name cxa_demangle
              (functions a)
              cache
            ≡ some (n, later))
          × ((demangle cxa_demangle (functions a) (functions a).intrinsic ≡ some n)
              × IsConsistent cxa_demangle functions later)))
unfolding demangle_function_name
names-cached cxa_demangle functions a cache address consistent =
    found-Answers cxa_demangle functions a cache _ (address a) consistent
      (ap (λ b. lookup b cache) (sym (address a)))
