-- ===== src/Examples/Transforms.antt =====
-- A module with a string, a selector that refers to it, and a call and a store of the string.
use llvm2cpg.Prelude.{
  ℕ, ◌≡◌, refl, ◌==◌, true, Option, none, some, List, [], ◌∷◌, if◌then◌else◌, inl, inr,
}
use llvm2cpg.Prelude.Each.{All}
use llvm2cpg.Types.Naming.{lookup}
use llvm2cpg.Transforms.{
  Bitcode, Value, data_array, expression, instruction, null_value, other_value, get_element_ptr,
  call, store, find_inlines, inline_global_strings, operands,
}
use llvm2cpg.Transforms.Inlined.{Inlined, wrapped, zero_gep, of_call}
use llvm2cpg.Transforms.Marked.{Payload, inline_global_strings-Payload, inline_global_strings-marks}
use llvm2cpg.Transforms.Strings.{IsString, find_inlines-IsString}

-- 0: @str, 1: "Hello", 2: getelementptr @str, 0, 0, 3: 0, 4: call f(2, 7), 5: store @selector, 7,
-- 6: @selector = getelementptr @str, 0, 0
abbrev values : ℕ → Value
values v =
    if v == 1
    then data_array true
    else if v == 2
    then expression get_element_ptr (0 ∷ 3 ∷ 3 ∷ [])
    else if v == 3
    then null_value
    else if v == 4
    then instruction call (2 ∷ 7 ∷ [])
    else if v == 5
    then instruction store (6 ∷ 7 ∷ [])
    else other_value

abbrev users : ℕ → List ℕ
users v = if v == 0 then 2 ∷ [] else if v == 2 then 6 ∷ 4 ∷ [] else if v == 6 then 5 ∷ [] else []

abbrev bitcode : Bitcode
bitcode = record {
  struct_types = [];
  globals =
      record { value = 0; name = some ".str"; initializer = some 1 }
      ∷ record { value = 6; name = some "OBJC_SELECTOR_REFERENCES_"; initializer = some 2 }
      ∷ [];
  values = values;
  users = users;
  pointer_elements = λ v. none;
  initializers = λ v. if v == 0 then some 1 else if v == 6 then some 2 else none;
}

inlines : find_inlines bitcode ≡ (6, 1) ∷ (0, 1) ∷ []
unfolding find_inlines
inlines = refl

inline_global_strings-Payload_example :
    Payload bitcode (find_inlines bitcode) 4 (operands (values 4)) (some 1 ∷ none ∷ [])
unfolding inline_global_strings lookup
inline_global_strings-Payload_example =
    inline_global_strings-Payload bitcode 4 (some 1 ∷ none ∷ []) refl

call-Inlined : Inlined bitcode (find_inlines bitcode) 4 2 1
unfolding find_inlines
call-Inlined =
    wrapped 0 1 2 4 (inr (inl refl)) (inl refl)
      (zero_gep (0 ∷ 3 ∷ 3 ∷ []) (3, (refl, refl)) (3, (refl, refl))) (inr (inl refl))
      (of_call (2 ∷ 7 ∷ []))

inline_global_strings-marks_example :
    (payload : List (Option ℕ)) × (lookup 4 (inline_global_strings true bitcode).instruction_strings
      ≡ some payload)
inline_global_strings-marks_example = inline_global_strings-marks bitcode 4 2 1 call-Inlined

find_inlines-IsString_example : All (IsString bitcode) (find_inlines bitcode)
find_inlines-IsString_example = find_inlines-IsString bitcode
