-- ===== src/FileType.antt =====
-- The kinds of input files: tools/llvm2cpg/FileType.cpp, built with LLVM 10. What identify_magic
-- answers is the argument: none for an error.
use llvm2cpg.Prelude.{String, Option, none, some}

pub data FileMagic : Type 0 where
  unknown bitcode archive elf elf_relocatable elf_executable elf_shared_object : FileMagic
  elf_core macho_object macho_executable macho_fixed_virtual_memory_shared_lib : FileMagic
  macho_core macho_preload_executable macho_dynamically_linked_shared_lib : FileMagic
  macho_dynamic_linker macho_bundle macho_dynamically_linked_shared_lib_stub : FileMagic
  macho_dsym_companion macho_kext_bundle macho_universal_binary coff_cl_gl_object : FileMagic
  coff_object coff_import_library pecoff_executable windows_resource wasm_object : FileMagic
  pdb minidump xcoff_object_32 xcoff_object_64 tapi_file : FileMagic

pub data FileType : Type 0 where
  unsupported_file bitcode_file binary_file llvm_ir_file : FileType

unfoldable pub magic_name : FileMagic → String
magic_name unknown = "unknown"
magic_name bitcode = "bitcode"
magic_name archive = "archive"
magic_name elf = "elf"
magic_name elf_relocatable = "elf_relocatable"
magic_name elf_executable = "elf_executable"
magic_name elf_shared_object = "elf_shared_object"
magic_name elf_core = "elf_core"
magic_name macho_object = "macho_object"
magic_name macho_executable = "macho_executable"
magic_name macho_fixed_virtual_memory_shared_lib = "macho_fixed_virtual_memory_shared_lib"
magic_name macho_core = "macho_core"
magic_name macho_preload_executable = "macho_preload_executable"
magic_name macho_dynamically_linked_shared_lib = "macho_dynamically_linked_shared_lib"
magic_name macho_dynamic_linker = "macho_dynamic_linker"
magic_name macho_bundle = "macho_bundle"
magic_name macho_dynamically_linked_shared_lib_stub = "macho_dynamically_linked_shared_lib_stub"
magic_name macho_dsym_companion = "macho_dsym_companion"
magic_name macho_kext_bundle = "macho_kext_bundle"
magic_name macho_universal_binary = "macho_universal_binary"
magic_name coff_cl_gl_object = "coff_cl_gl_object"
magic_name coff_object = "coff_object"
magic_name coff_import_library = "coff_import_library"
magic_name pecoff_executable = "pecoff_executable"
magic_name windows_resource = "windows_resource"
magic_name wasm_object = "wasm_object"
magic_name pdb = "pdb"
magic_name minidump = "minidump"
magic_name xcoff_object_32 = "xcoff_object_32"
magic_name xcoff_object_64 = "xcoff_object_64"
magic_name tapi_file = "tapi_file"

abbrev pub file_type : FileMagic → FileType
file_type unknown = llvm_ir_file
file_type bitcode = bitcode_file
file_type archive = binary_file
file_type elf = binary_file
file_type elf_relocatable = binary_file
file_type elf_executable = binary_file
file_type elf_shared_object = binary_file
file_type elf_core = binary_file
file_type macho_object = binary_file
file_type macho_executable = binary_file
file_type macho_fixed_virtual_memory_shared_lib = binary_file
file_type macho_core = binary_file
file_type macho_preload_executable = binary_file
file_type macho_dynamically_linked_shared_lib = binary_file
file_type macho_dynamic_linker = binary_file
file_type macho_bundle = binary_file
file_type macho_dynamically_linked_shared_lib_stub = binary_file
file_type macho_dsym_companion = binary_file
file_type macho_kext_bundle = binary_file
file_type macho_universal_binary = binary_file
file_type coff_cl_gl_object = unsupported_file
file_type coff_object = unsupported_file
file_type coff_import_library = unsupported_file
file_type pecoff_executable = unsupported_file
file_type windows_resource = unsupported_file
file_type wasm_object = unsupported_file
file_type pdb = unsupported_file
file_type minidump = unsupported_file
file_type xcoff_object_32 = unsupported_file
file_type xcoff_object_64 = unsupported_file
file_type tapi_file = unsupported_file

unfoldable pub get_file_type : Option FileMagic → FileType
get_file_type none = unsupported_file
get_file_type (some magic) = file_type magic
