-- ===== src/Types/Canonical.antt =====
-- Names that tell structs apart: recordCanonicalStructNames of lib/ProtoWriter/CPGTypeEmitter.cpp.
use llvm2cpg.Prelude.{
  ℕ, zero, suc, String, Bool, true, false, Option, none, some, List, [], ◌∷◌, ◌++◌, map, length,
  ◌==◌, ◌<>◌, to_string, if◌then◌else◌,
}
use text.Mathlib.Text.{◌==◌ as str_eq}
use llvm2cpg.Types.{Struct}
use llvm2cpg.Types.Naming.{TypeEmitter, lookup}
use llvm2cpg.Types.Equality.{get_canonical_name}
use llvm2cpg.Types.Comparator.{◌>>=◌, Comparator, types_equal}

abbrev pub Parts : Type 0
Parts = List ℕ × List ℕ

abbrev pub put_part : Bool → ℕ → Parts → Parts
put_part true a (same, others) = (a ∷ same, others)
put_part false a (same, others) = (same, a ∷ others)

-- std::partition of what is left of the cluster by equality with its first struct: the order
-- within the two parts is taken to stay.
unfoldable pub partition : ℕ → List ℕ → Comparator → Option (Parts × Comparator)
unfolding types_equal
partition x [] s = some (([], []), s)
partition x (y ∷ ys) s =
    types_equal x y s >>= λ e. partition x ys e.1 >>= λ p. some (put_part e.0 y p.0, p.1)

-- The loop that moves `it` to the end of the first part.
unfoldable pub regroup : ℕ → List ℕ → Comparator → Option (List ℕ × Comparator)
unfolding partition
regroup fuel [] s = some ([], s)
regroup zero (x ∷ xs) s = none
regroup (suc fuel) (x ∷ xs) s =
    partition x (x ∷ xs) s >>= λ p. regroup fuel p.0.1 p.1 >>= λ r. some (p.0.0 ++ r.0, r.1)

-- CanonicalNameCounter::getName
unfoldable pub get_name : String → ℕ → String
get_name name counter = if counter == 0 then name else name <> "_" <> to_string counter

-- currentStruct and nameCounter after the next struct.
abbrev pub bump : Bool → ℕ → ℕ → ℕ → ℕ × ℕ
bump true current next counter = (current, counter)
bump false current next counter = (next, suc counter)

abbrev pub Numbers : Type 0
Numbers = List (ℕ × ℕ)

unfoldable pub number_rest : ℕ → ℕ → List ℕ → Comparator → Option (Numbers × Comparator)
unfolding types_equal
number_rest current counter [] s = some ([], s)
number_rest current counter (y ∷ ys) s = types_equal current y s >>= λ e.
    let next = bump e.0 current y counter in
    number_rest next.0 next.1 ys e.1 >>= λ r. some ((y, next.1) ∷ r.0, r.1)

unfoldable pub number_cluster : List ℕ → Comparator → Option (Numbers × Comparator)
unfolding number_rest
number_cluster [] s = some ([], s)
number_cluster (x ∷ xs) s = number_rest x 0 xs s >>= λ r. some ((x, 0) ∷ r.0, r.1)

-- The counters of the structs of one cluster.
unfoldable pub record_cluster : List ℕ → Comparator → Option (Numbers × Comparator)
unfolding regroup number_cluster
record_cluster cluster s = regroup (length cluster) cluster s >>= λ r. number_cluster r.0 r.1

abbrev pub Clusters : Type 0
Clusters = List (String × List ℕ)

-- named_struct_clusters[name].push_back(address)
unfoldable pub push_cluster : String → ℕ → Clusters → Clusters
push_cluster name address [] = (name, address ∷ []) ∷ []
push_cluster name address ((k, l) ∷ rest) =
    let later = push_cluster name address rest in
    if str_eq k name then (k, l ++ address ∷ []) ∷ rest else (k, l) ∷ later

-- A struct without a name goes on with the empty one.
abbrev pub struct_name : Struct → String
struct_name struct = get_canonical_name (elim struct.name [ some n ↦ n | none ↦ "" ])

unfoldable pub cluster_structs : (ℕ → Struct) → List ℕ → Clusters → Clusters
unfolding push_cluster get_canonical_name
cluster_structs structs [] clusters = clusters
cluster_structs structs (a ∷ rest) clusters =
    cluster_structs structs rest (push_cluster (struct_name (structs a)) a clusters)

abbrev pub Names : Type 0
Names = List (ℕ × String)

unfoldable pub name_clusters : Clusters → Comparator → Option (Names × Comparator)
unfolding record_cluster get_name
name_clusters [] s = some ([], s)
name_clusters ((name, cluster) ∷ rest) s = record_cluster cluster s >>= λ r.
    name_clusters rest r.1 >>= λ later.
    some (map (λ (p : ℕ × ℕ). (p.0, get_name name p.1)) r.0 ++ later.0, later.1)

abbrev pub with_names : Names → TypeEmitter → TypeEmitter
with_names names s = record s {
  canonical_names = λ a. elim (lookup a names) [ some n ↦ n | none ↦ s.canonical_names a ];
}

-- Over the identified structs of all modules, with a new comparator.
unfoldable pub record_canonical_struct_names :
    List ℕ → Comparator → TypeEmitter → Option TypeEmitter
unfolding cluster_structs name_clusters lookup
record_canonical_struct_names all_types comparator s =
    name_clusters (cluster_structs s.structs all_types []) comparator >>= λ r.
    some (with_names r.0 s)
