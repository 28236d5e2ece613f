-- ===== src/Demangler.antt =====
-- The names of functions: lib/Demangler/Demangler.cpp and CPGDemangler.cpp. A text that is walked
-- is the list of its bytes. abi::__cxa_demangle is a parameter.
pub mod Intrinsics
pub mod Texts
pub mod Pieces
pub mod Brackets
pub mod Names
pub mod Cached
use llvm2cpg.Prelude.{
  ℕ, zero, suc, ◌-◌, Bool, true, false, ◌||◌, Option, none, some, List, [], ◌∷◌, ◌++◌, ◌==◌, leb,
  length, String, if◌then◌else◌,
}
use mathlib.Core.List.{reverse}
use llvm2cpg.Prelude.Chain.{◌>>=◌}
use llvm2cpg.Types.Naming.{lookup}
use llvm2cpg.Demangler.Intrinsics.{Intrinsic, intrinsic_name}
use Prim.Native.Char.{code}

abbrev pub Bytes : Type 0
Bytes = List ℕ

abbrev pub bytes : String → Bytes
bytes String.[] = []
bytes (String.◌∷◌ c s) = code c ∷ bytes s

pub data ManglingType : Type 0 where
  unknown cxx objc : ManglingType

pub record ManglingResult : Type 0 where
  pub type : ManglingType
  pub result : Bytes

abbrev or_unknown : Bytes → Option Bytes → ManglingResult
or_unknown mangled (some demangled) = record { type = cxx; result = demangled }
or_unknown mangled none = record { type = unknown; result = mangled }

-- A name that begins with the byte 1 is one of Objective-C.
unfoldable pub demangle_string : (Bytes → Option Bytes) → Bytes → ManglingResult
demangle_string cxa_demangle [] = or_unknown [] (cxa_demangle [])
demangle_string cxa_demangle (c ∷ rest) =
    if c == 1
    then record { type = objc; result = rest }
    else or_unknown (c ∷ rest) (cxa_demangle (c ∷ rest))

-- The iterator `begin` is what is left of the reversed text.
unfoldable pub skip_to_paren : Bytes → Bytes
skip_to_paren [] = []
skip_to_paren (c ∷ r) = let rest = skip_to_paren r in if c == b')' then c ∷ r else rest

-- int: the counts of brackets may fall below 0.
pub data ℤ : Type 0 where
  pos negsuc : ℕ → ℤ

abbrev pub increment : ℤ → ℤ
increment (pos n) = pos (suc n)
increment (negsuc zero) = pos 0
increment (negsuc (suc n)) = negsuc n

abbrev pub decrement : ℤ → ℤ
decrement (pos zero) = negsuc 0
decrement (pos (suc n)) = pos n
decrement (negsuc n) = negsuc (suc n)

abbrev pub is_zero : ℤ → Bool
is_zero (pos zero) = true
is_zero _ = false

-- A closing bracket counts up, an opening one down.
abbrev pub counted : ℕ → ℕ → ℕ → ℤ → ℤ
counted closing opening c n =
    if c == closing then increment n else if c == opening then decrement n else n

-- The loop over a pair of brackets: it moves at least one byte on, and stops where they balance.
unfoldable pub skip_balanced : ℕ → ℕ → ℤ → Bytes → ℤ × Bytes
skip_balanced closing opening n [] = (n, [])
skip_balanced closing opening n (c ∷ r) =
    let m = counted closing opening c n in
    let rest = skip_balanced closing opening m r in if is_zero m then (m, r) else rest

-- The loop to the next colon, and whether it met a space.
unfoldable pub skip_to_colon : Bytes → Bool → Bool × Bytes
skip_to_colon [] space = (space, [])
skip_to_colon (c ∷ r) space =
    let rest = skip_to_colon r (space || (c == b' ')) in if c == b':' then (space, c ∷ r) else rest

abbrev pub take : ℕ → Bytes → Bytes
take zero l = []
take (suc n) [] = []
take (suc n) (c ∷ l) = c ∷ take n l

abbrev pub drop : ℕ → Bytes → Bytes
drop zero l = l
drop (suc n) [] = []
drop (suc n) (c ∷ l) = drop n l

-- std::string::substr throws for a position beyond the end, and cuts the count off at the end.
abbrev pub substr : ℕ → ℕ → Bytes → Option Bytes
substr position count l =
    if leb position (length l) then some (take count (drop position l)) else none

-- std::string::find of a space
unfoldable pub find_space : Bytes → Option ℕ
find_space [] = none
find_space (c ∷ l) =
    let rest = find_space l in
    if c == b' ' then some 0 else elim rest [ some n ↦ some (suc n) | none ↦ none ]

abbrev pub equal_bytes : Bytes → Bytes → Bool
equal_bytes [] [] = true
equal_bytes [] (y ∷ ys) = false
equal_bytes (x ∷ xs) [] = false
equal_bytes (x ∷ xs) (y ∷ ys) = let rest = equal_bytes xs ys in if x == y then rest else false

-- The first token goes, if it is not "operator ".
unfoldable pub strip_found : Option ℕ → Bytes → Option Bytes
strip_found none name = some name
strip_found (some space) name = substr 0 (suc space) name >>= λ prefix.
    if equal_bytes prefix (bytes "operator ")
    then some name
    else substr (suc space) (length name) name

unfoldable pub strip_return_type : Bool → Bytes → Option Bytes
unfolding strip_found find_space
strip_return_type false name = some name
strip_return_type true name = strip_found (find_space name) name

abbrev pub unless_empty : Bytes → Bytes → Bytes
unless_empty [] whole = whole
unless_empty (c ∷ name) whole = c ∷ name

-- From the end of the name, `name_end`, to the colon that `found` is at.
unfoldable pub name_between : Bytes → Bytes → Bool × Bytes → Option Bytes
unfolding strip_return_type
name_between whole name_end found =
    let position = length found.1 in
    substr position (length name_end - position) whole >>= strip_return_type found.0 >>= λ name.
    some (unless_empty name whole)

unfoldable pub name_before : Bytes → Bytes → Option Bytes
unfolding skip_balanced skip_to_colon name_between
name_before whole name_end =
    name_between whole name_end (skip_to_colon (skip_balanced b'>' b'<' (pos 0) name_end).1 false)

-- Without a paren, or with parens that do not balance, the name is the whole.
unfoldable pub name_after_args : Bytes → ℤ × Bytes → Option Bytes
unfolding name_before
name_after_args whole (pos zero, []) = some whole
name_after_args whole (pos zero, c ∷ r) = name_before whole (c ∷ r)
name_after_args whole (pos (suc n), r) = some whole
name_after_args whole (negsuc n, r) = some whole

unfoldable pub name_from_paren : Bytes → Bytes → Option Bytes
unfolding name_after_args skip_balanced
name_from_paren whole [] = some whole
name_from_paren whole (c ∷ r) = name_after_args whole (skip_balanced b')' b'(' (pos 0) (c ∷ r))

unfoldable pub extract_name_from_cxx_name : Bytes → Option Bytes
unfolding name_from_paren skip_to_paren
extract_name_from_cxx_name whole = name_from_paren whole (skip_to_paren (reverse whole))

abbrev pub name_of_result : ManglingType → Bytes → Option Bytes
name_of_result unknown n = some n
name_of_result cxx n = extract_name_from_cxx_name n
name_of_result objc n = some n

unfoldable pub extract_full_name : (Bytes → Option Bytes) → Bytes → Bytes
unfolding demangle_string
extract_full_name cxa_demangle mangled = (demangle_string cxa_demangle mangled).result

unfoldable pub extract_name : (Bytes → Option Bytes) → Bytes → Option Bytes
unfolding demangle_string extract_name_from_cxx_name
extract_name cxa_demangle mangled =
    let r = demangle_string cxa_demangle mangled in name_of_result r.type r.result

pub record DemangledName : Type 0 where
  pub full_name : Bytes
  pub name : Bytes

-- An llvm::Function: its address, its name, and which intrinsic it is.
pub record Function : Type 0 where
  pub address : ℕ
  pub name : String
  pub intrinsic : Option Intrinsic

abbrev pub Cache : Type 0
Cache = List (ℕ × DemangledName)

-- none: an exception
unfoldable pub demangle :
    (Bytes → Option Bytes) → Function → Option Intrinsic → Option DemangledName
unfolding extract_full_name extract_name intrinsic_name
demangle cxa_demangle f (some i) =
    some (record { full_name = bytes f.name; name = bytes (intrinsic_name i f.name) })
demangle cxa_demangle f none = extract_name cxa_demangle (bytes f.name) >>= λ text.
    some (record { full_name = extract_full_name cxa_demangle (bytes f.name); name = text })

unfoldable pub demangle_found :
    (Bytes → Option Bytes)
    → Function
    → Option DemangledName
    → Cache
    → Option (DemangledName × Cache)
unfolding demangle
demangle_found cxa_demangle f (some n) cache = some (n, cache)
demangle_found cxa_demangle f none cache =
    demangle cxa_demangle f f.intrinsic >>= λ n. some (n, (f.address, n) ∷ cache)

-- CPGDemangler::demangleFunctionName
unfoldable pub demangle_function_name :
    (Bytes → Option Bytes) → Function → Cache → Option (DemangledName × Cache)
unfolding demangle_found lookup
demangle_function_name cxa_demangle f cache =
    demangle_found cxa_demangle f (lookup f.address cache) cache
