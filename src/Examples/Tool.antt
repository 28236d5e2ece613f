-- ===== src/Examples/Tool.antt =====
-- A directory with an LLVM IR file and a text, and a bitcode file that does not load.
use llvm2cpg.Prelude.{◌≡◌, refl, none, some, [], ◌∷◌, if◌then◌else◌}
use text.Mathlib.Text.{◌==◌ as str_eq}
use llvm2cpg.Prelude.Each.{In}
use llvm2cpg.FileType.{bitcode, unknown}
use llvm2cpg.Tool.{Environment, get_input_file_paths, load_files}
use llvm2cpg.Tool.Inputs.{IsInputFile, get_input_file_paths-IsInputFile}

abbrev environment : Environment
environment = record {
  is_directory = λ p. str_eq p "dir";
  scan = λ p. "dir/b.ll" ∷ "dir/a.txt" ∷ [];
  real_path = λ p. some p;
  identify_magic = λ p. if str_eq p "broken.bc" then some bitcode else some unknown;
  load_bitcode = λ p. none;
  load_ir = λ p. some 1;
  extract_bitcode = λ p. [];
}

input_files :
    get_input_file_paths environment ("dir" ∷ "broken.bc" ∷ []) ≡ "broken.bc" ∷ "dir/b.ll" ∷ []
unfolding get_input_file_paths
input_files = refl

get_input_file_paths-IsInputFile_example :
    (In "dir/b.ll" (get_input_file_paths environment ("dir" ∷ []))
      → IsInputFile environment ("dir" ∷ []) "dir/b.ll")
    × (IsInputFile environment ("dir" ∷ []) "dir/b.ll"
        → In "dir/b.ll" (get_input_file_paths environment ("dir" ∷ [])))
get_input_file_paths-IsInputFile_example =
    get_input_file_paths-IsInputFile environment ("dir" ∷ []) "dir/b.ll"

broken_modules : load_files environment ("broken.bc" ∷ []) ≡ none ∷ []
unfolding load_files
broken_modules = refl
