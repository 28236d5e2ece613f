-- ===== src/Examples/Canonical.antt =====
-- Structs with the canonical name Foo, of which two are equal.
use llvm2cpg.Prelude.{
  ℕ, zero, suc, ◌≤◌, ◌≡◌, refl, String, Bool, false, Option, none, some, List, [], ◌∷◌, arith, ◌==◌,
  to_string,
}
use llvm2cpg.Types.{Ty, Struct, primitive, float, integer}
use llvm2cpg.Types.Naming.{TypeEmitter, lookup}
use llvm2cpg.Types.Comparator.{Comparator, types_equal}
use llvm2cpg.Types.Canonical.{Numbers, record_cluster, record_canonical_struct_names}
use llvm2cpg.Types.Classes.{Numbering}
use llvm2cpg.Types.Deduplicated.{HasFuel, cached, record_cluster-Numbering, types_equal-cached}

abbrev struct : String → Ty → Struct
struct name t = record { name = some name; body = some (t ∷ []); is_packed = false }

abbrev structs : ℕ → Struct
structs zero = struct "struct.Foo" (integer 32)
structs (suc zero) = struct "struct.Foo.1" (primitive float)
structs (suc (suc zero)) = struct "struct.Foo.2" (integer 32)
structs (suc (suc (suc zero))) = struct "struct.Foo_1" (integer 8)
structs (suc (suc (suc (suc a)))) = record { name = none; body = none; is_packed = false }

abbrev type_id : Ty → ℕ
type_id (integer w) = 11
type_id (primitive p) = 2
type_id _ = 13

abbrev comparator : Comparator
comparator = record {
  table = record { structs = structs; type_id = type_id };
  fuel = 5;
  hasher = λ n. n;
  opaque_structs = [];
  unnamed_structs = [];
  hash_cache = [];
}

comparator-HasFuel : HasFuel 4 comparator
unfolding lookup
comparator-HasFuel = record { is_table = is_table; enough = refl }
  where
    is_table : (a : ℕ) → 4 ≤ a → (structs a).body ≡ none
    is_table zero le = absurd (omega arith)
    is_table (suc zero) le = absurd (omega arith)
    is_table (suc (suc zero)) le = absurd (omega arith)
    is_table (suc (suc (suc zero))) le = absurd (omega arith)
    is_table (suc (suc (suc (suc a)))) le = refl

record_cluster-Numbering_example :
    (numbers : Numbers) × (s' : Comparator) × (record_cluster (0 ∷ 1 ∷ 2 ∷ []) comparator
      ≡ some (numbers, s'))
    × Numbering (cached s') 0 (0 ∷ 1 ∷ 2 ∷ []) numbers
    × HasFuel 4 s'
record_cluster-Numbering_example =
    record_cluster-Numbering 4 (0 ∷ 1 ∷ 2 ∷ []) comparator comparator-HasFuel

types_equal-cached_example :
    (e : Bool) × (s' : Comparator) × (types_equal 0 2 comparator ≡ some (e, s'))
    × (e ≡ (cached s' 0 == cached s' 2))
    × ((c h : ℕ) → lookup c comparator.hash_cache ≡ some h → cached s' c ≡ h)
types_equal-cached_example = types_equal-cached 4 0 2 comparator comparator-HasFuel

abbrev emitter : TypeEmitter
emitter = record {
  depth = 2;
  structs = structs;
  print_type = λ t. "i32";
  canonical_names = λ a. "";
  canonical_opaque_names = [];
  struct_member_names = [];
  recorded_types = [];
}

abbrev names : Option TypeEmitter → List String
names none = []
names (some s) =
    s.canonical_names 0 ∷ s.canonical_names 1 ∷ s.canonical_names 2 ∷ s.canonical_names 3 ∷ []

-- The second Foo is named as the struct that is called Foo_1 in the source, though they differ.
canonical_names_clash :
    names (record_canonical_struct_names (0 ∷ 1 ∷ 2 ∷ 3 ∷ []) comparator emitter)
    ≡ "Foo" ∷ "Foo_1" ∷ "Foo" ∷ "Foo_1" ∷ []
unfolding record_canonical_struct_names to_string
canonical_names_clash = refl
