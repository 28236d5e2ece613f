-- ===== src/Tool/Kinds.antt =====
-- The kinds of files that the tool takes (tools/llvm2cpg/llvm2cpgTool.cpp and FileType.cpp).
use Prim.Native.String
use text.Mathlib.Text.{◌==◌ as str_eq}
use llvm2cpg.Prelude.{
  ◌-◌, ◌≡◌, refl, String, true, Option, none, some, List, [], ◌∷◌, ◌⊎◌, inl, inr,
}
use mathlib.Core.Bool.{false≢true}
use llvm2cpg.Prelude.Each.{In}
use llvm2cpg.FileType.{
  FileMagic, get_file_type, unknown, bitcode, archive, elf, elf_relocatable, elf_executable,
  elf_shared_object, elf_core, macho_object, macho_executable,
  macho_fixed_virtual_memory_shared_lib, macho_core, macho_preload_executable,
  macho_dynamically_linked_shared_lib, macho_dynamic_linker, macho_bundle,
  macho_dynamically_linked_shared_lib_stub, macho_dsym_companion, macho_kext_bundle,
  macho_universal_binary, coff_cl_gl_object, coff_object, coff_import_library, pecoff_executable,
  windows_resource, wasm_object, pdb, minidump, xcoff_object_32, xcoff_object_64, tapi_file,
}
use llvm2cpg.Tool.{Environment, is_input, is_accepted}

-- Bitcode, archives, and the kinds of ELF and Mach-O.
abbrev pub direct : List FileMagic
direct =
    bitcode ∷ archive ∷ elf ∷ elf_relocatable ∷ elf_executable ∷ elf_shared_object ∷ elf_core
    ∷ macho_object ∷ macho_executable ∷ macho_fixed_virtual_memory_shared_lib ∷ macho_core
    ∷ macho_preload_executable ∷ macho_dynamically_linked_shared_lib ∷ macho_dynamic_linker
    ∷ macho_bundle ∷ macho_dynamically_linked_shared_lib_stub ∷ macho_dsym_companion
    ∷ macho_kext_bundle ∷ macho_universal_binary ∷ []

-- The last three bytes of the path.
abbrev pub IsLl : String → Type 0
IsLl p = str_eq (String.slice p (String.len p - 3) (String.len p)) ".ll" ≡ true

abbrev pub Fits : Option FileMagic → String → Type 0
Fits none p = ⊥
Fits (some magic) p = In magic direct ⊎ ((magic ≡ unknown) × IsLl p)

magic-Fits :
    (p : String) (magic : FileMagic)
    → is_input (get_file_type (some magic)) p ≡ true
    → Fits (some magic) p
unfolding get_file_type
magic-Fits p unknown h = inr (refl, h)
magic-Fits p bitcode h = inl (inl refl)
magic-Fits p archive h = inl (inr (inl refl))
magic-Fits p elf h = inl (inr (inr (inl refl)))
magic-Fits p elf_relocatable h = inl (inr (inr (inr (inl refl))))
magic-Fits p elf_executable h = inl (inr (inr (inr (inr (inl refl)))))
magic-Fits p elf_shared_object h = inl (inr (inr (inr (inr (inr (inl refl))))))
magic-Fits p elf_core h = inl (inr (inr (inr (inr (inr (inr (inl refl)))))))
magic-Fits p macho_object h = inl (inr (inr (inr (inr (inr (inr (inr (inl refl))))))))
magic-Fits p macho_executable h = inl (inr (inr (inr (inr (inr (inr (inr (inr (inl refl)))))))))
magic-Fits p macho_fixed_virtual_memory_shared_lib h =
    inl (inr (inr (inr (inr (inr (inr (inr (inr (inr (inl refl))))))))))
magic-Fits p macho_core h =
    inl (inr (inr (inr (inr (inr (inr (inr (inr (inr (inr (inl refl)))))))))))
magic-Fits p macho_preload_executable h =
    inl (inr (inr (inr (inr (inr (inr (inr (inr (inr (inr (inr (inl refl))))))))))))
magic-Fits p macho_dynamically_linked_shared_lib h =
    inl (inr (inr (inr (inr (inr (inr (inr (inr (inr (inr (inr (inr (inl refl)))))))))))))
magic-Fits p macho_dynamic_linker h =
    inl (inr (inr (inr (inr (inr (inr (inr (inr (inr (inr (inr (inr (inr (inl refl))))))))))))))
magic-Fits p macho_bundle h =
    inl
      (inr (inr (inr (inr (inr (inr (inr (inr (inr (inr (inr (inr (inr (inr (inl refl)))))))))))))))
magic-Fits p macho_dynamically_linked_shared_lib_stub h = inl (
    inr (
      inr (inr (inr (inr (inr (inr (inr (inr (inr (inr (inr (inr (inr (inr (inl refl))))))))))))))))
magic-Fits p macho_dsym_companion h = inl (
    inr (
      inr (
        inr (
          inr (inr (inr (inr (inr (inr (inr (inr (inr (inr (inr (inr (inr (inl refl)))))))))))))))))
magic-Fits p macho_kext_bundle h = inl (
    inr (
      inr (
        inr (
          inr (
            inr (
              inr (inr (inr (inr (inr (inr (inr (inr (inr (inr (inr (inr (inl refl))))))))))))))))))
magic-Fits p macho_universal_binary h = inl (
    inr (
      inr (
        inr (
          inr (
            inr (
              inr (
                inr (
                  inr (inr (inr (inr (inr (inr (inr (inr (inr (inr (inr (inl refl)))))))))))))))))))
magic-Fits p coff_cl_gl_object h = absurd (false≢true h)
magic-Fits p coff_object h = absurd (false≢true h)
magic-Fits p coff_import_library h = absurd (false≢true h)
magic-Fits p pecoff_executable h = absurd (false≢true h)
magic-Fits p windows_resource h = absurd (false≢true h)
magic-Fits p wasm_object h = absurd (false≢true h)
magic-Fits p pdb h = absurd (false≢true h)
magic-Fits p minidump h = absurd (false≢true h)
magic-Fits p xcoff_object_32 h = absurd (false≢true h)
magic-Fits p xcoff_object_64 h = absurd (false≢true h)
magic-Fits p tapi_file h = absurd (false≢true h)

found-Fits :
    (p : String) (found : Option FileMagic) → is_input (get_file_type found) p ≡ true → Fits found p
unfolding get_file_type
found-Fits p none h = absurd (false≢true h)
found-Fits p (some magic) h = magic-Fits p magic h

pub accepted-Fits :
    (e : Environment) (p : String) → is_accepted e p ≡ true → Fits (e.identify_magic p) p
unfolding is_accepted
accepted-Fits e p h = found-Fits p (e.identify_magic p) h

abbrev AllInput : String → List FileMagic → Type 0
AllInput p [] = Unit
AllInput p (m ∷ ms) = (is_input (get_file_type (some m)) p ≡ true) × AllInput p ms

direct-input :
    (p : String) (magic : FileMagic) (ms : List FileMagic)
    → AllInput p ms
    → In magic ms
    → is_input (get_file_type (some magic)) p ≡ true
direct-input p magic [] all i = absurd i
direct-input p magic (m ∷ ms) all (inl same) = rw same all.0
direct-input p magic (m ∷ ms) all (inr i) = direct-input p magic ms all.1 i

direct-AllInput : (p : String) → AllInput p direct
unfolding get_file_type
direct-AllInput p = (
  refl,
  (
    refl,
    (
      refl,
      (
        refl,
        (
          refl,
          (
            refl,
            (
              refl,
              (
                refl,
                (
                  refl,
                  (
                    refl,
                    (refl, (refl, (refl, (refl, (refl, (refl, (refl, (refl, (refl, tt))))))))),
                  ),
                ),
              ),
            ),
          ),
        ),
      ),
    ),
  ),
)

Fits-found :
    (p : String) (found : Option FileMagic) → Fits found p → is_input (get_file_type found) p ≡ true
unfolding get_file_type
Fits-found p none h = absurd h
Fits-found p (some magic) (inl i) = direct-input p magic direct (direct-AllInput p) i
Fits-found p (some magic) (inr (same, ll)) = rw same ll

pub Fits-accepted :
    (e : Environment) (p : String) → Fits (e.identify_magic p) p → is_accepted e p ≡ true
unfolding is_accepted
Fits-accepted e p h = Fits-found p (e.identify_magic p) h
