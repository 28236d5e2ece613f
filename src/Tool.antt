-- ===== src/Tool.antt =====
-- The inputs of the tool and what is loaded of them: tools/llvm2cpg/llvm2cpgTool.cpp. The file
-- system, and what BitcodeLoader loads, are parameters.
pub mod Kinds
pub mod Inputs
use llvm2cpg.Prelude.{
  ℕ, ◌-◌, String, Bool, true, false, Option, none, some, List, [], ◌∷◌, ◌++◌, ◌==◌, ltb,
  if◌then◌else◌, map,
}
use text.Mathlib.Text.{◌==◌ as str_eq}
use Prim.Native.String
use Prim.Native.Char.{code}
use llvm2cpg.FileType.{
  FileMagic, FileType, unsupported_file, bitcode_file, binary_file, llvm_ir_file, get_file_type,
}

-- `scan` has the paths below a directory up to an error; a module is a number, and a null pointer
-- is none.
pub record Environment : Type 0 where
  pub is_directory : String → Bool
  pub scan : String → List String
  pub real_path : String → Option String
  pub identify_magic : String → Option FileMagic
  pub load_bitcode : String → Option ℕ
  pub load_ir : String → Option ℕ
  pub extract_bitcode : String → List ℕ

-- std::set of paths: in the order of strings
abbrev less : String → String → Bool
less s String.[] = false
less String.[] (String.◌∷◌ d t) = true
less (String.◌∷◌ c s) (String.◌∷◌ d t) =
    let rest = less s t in if code c == code d then rest else ltb (code c) (code d)

unfoldable pub insert : String → List String → List String
insert p [] = p ∷ []
insert p (q ∷ qs) =
    let rest = insert p qs in
    if str_eq p q then q ∷ qs else if less p q then p ∷ q ∷ qs else q ∷ rest

unfoldable pub find_worklist : Environment → List String → List String
find_worklist e [] = []
find_worklist e (path ∷ paths) =
    let rest = find_worklist e paths in
    if e.is_directory path then e.scan path ++ rest else path ∷ rest

abbrev ends_with_ll : String → Bool
ends_with_ll s = str_eq (String.slice s (String.len s - 3) (String.len s)) ".ll"

-- Whether a file of the kind is an input
abbrev pub is_input : FileType → String → Bool
is_input unsupported_file path = false
is_input bitcode_file path = true
is_input binary_file path = true
is_input llvm_ir_file path = ends_with_ll path

unfoldable pub is_accepted : Environment → String → Bool
unfolding get_file_type
is_accepted e path = is_input (get_file_type (e.identify_magic path)) path

abbrev pub insert_real : Environment → Option String → List String → List String
insert_real e none files = files
insert_real e (some path) files = if is_accepted e path then insert path files else files

abbrev pub insert_path : Environment → String → List String → List String
insert_path e path files =
    if e.is_directory path then files else insert_real e (e.real_path path) files

unfoldable pub insert_paths : Environment → List String → List String → List String
unfolding is_accepted insert
insert_paths e [] files = files
insert_paths e (path ∷ paths) files = insert_paths e paths (insert_path e path files)

unfoldable pub get_input_file_paths : Environment → List String → List String
unfolding find_worklist insert_paths
get_input_file_paths e paths = insert_paths e (find_worklist e paths) []

abbrev some_all : List ℕ → List (Option ℕ)
some_all [] = []
some_all (m ∷ ms) = some m ∷ some_all ms

abbrev unless_null : Option ℕ → List (Option ℕ)
unless_null none = []
unless_null (some m) = some m ∷ []

-- What one file adds to the modules: a bitcode file adds its pointer, null or not.
abbrev pub load_file : Environment → String → FileType → List (Option ℕ)
load_file e path unsupported_file = []
load_file e path bitcode_file = e.load_bitcode path ∷ []
load_file e path binary_file = some_all (e.extract_bitcode path)
load_file e path llvm_ir_file = unless_null (e.load_ir path)

unfoldable pub load_files : Environment → List String → List (Option ℕ)
unfolding get_file_type
load_files e [] = []
load_files e (path ∷ paths) =
    load_file e path (get_file_type (e.identify_magic path)) ++ load_files e paths
