-- ===== src/Types/Comparator.antt =====
-- TypesComparator of lib/LLVMExt/TypeEquality.cpp, on identified structs, which are all that is
-- compared: the hash of the type vector, and the cache of hashes. `none` is what runs out of fuel.
use Prim.Native.Nat.{bit_xor}
use llvm2cpg.Prelude.{
  ℕ, ◌+◌, ◌*◌, ◌/◌, ◌%◌, ◌^◌, String, Bool, Option, none, some, List, [], ◌∷◌, ◌==◌,
}
pub use llvm2cpg.Prelude.Chain.{◌>>=◌}
use llvm2cpg.Types.{identified}
use llvm2cpg.Types.Naming.{lookup}
use llvm2cpg.Types.Equality.{Types, Walk, construct_type_vector, start}

-- The fields, with the table of structs, the fuel of the traversal, and std::hash<size_t>.
pub record Comparator : Type 0 where
  pub table : Types
  pub fuel : ℕ
  pub hasher : ℕ → ℕ
  pub opaque_structs : List (String × ℕ)
  pub unnamed_structs : List (ℕ × ℕ)
  pub hash_cache : List (ℕ × ℕ)

-- seed ^= hasher(value) + 0x9e3779b9 + (seed << 6) + (seed >> 2), on 64 bits
unfoldable pub hash_combine : (ℕ → ℕ) → ℕ → List ℕ → ℕ
hash_combine hasher seed [] = seed
hash_combine hasher seed (v ∷ vs) =
    hash_combine hasher
      (bit_xor seed ((hasher v + 0x9e3779b9 + seed * 2 ^ 6 + seed / 2 ^ 2) % 2 ^ 64)) vs

unfoldable pub hash_vector : Option Walk → Comparator → Option (ℕ × Comparator)
unfolding hash_combine
hash_vector none s = none
hash_vector (some w) s = some (
  hash_combine s.hasher 0 w.result,
  record s { opaque_structs = w.opaque_structs; unnamed_structs = w.unnamed_structs },
)

unfoldable pub compute_type_hash : ℕ → Comparator → Option (ℕ × Comparator)
unfolding hash_vector construct_type_vector start
compute_type_hash a s =
    hash_vector
      (construct_type_vector s.fuel s.table
        (start (identified a) s.opaque_structs s.unnamed_structs))
      s

abbrev pub cache : ℕ → ℕ × Comparator → ℕ × Comparator
cache a (h, s) = (h, record s { hash_cache = (a, h) ∷ s.hash_cache })

unfoldable pub compute_found : ℕ → Option ℕ → Comparator → Option (ℕ × Comparator)
unfolding compute_type_hash
compute_found a (some h) s = some (h, s)
compute_found a none s = compute_type_hash a s >>= λ r. some (cache a r)

unfoldable pub compute_hash : ℕ → Comparator → Option (ℕ × Comparator)
unfolding compute_found lookup
compute_hash a s = compute_found a (lookup a s.hash_cache) s

unfoldable pub types_equal : ℕ → ℕ → Comparator → Option (Bool × Comparator)
unfolding compute_hash
types_equal a b s = compute_hash a s >>= λ l. compute_hash b l.1 >>= λ r. some (l.0 == r.0, r.1)
