-- ===== src/Demangler/Intrinsics.antt =====
-- The names of intrinsics: lib/Demangler/IntrinsicsDemangler.cpp.
use llvm2cpg.Prelude.{String}

-- llvm::Intrinsic::ID, as far as the table goes.
pub data Intrinsic : Type 0 where
  ceil cos exp exp2 fabs floor log log10 log2 memcpy memcpy_element_unordered_atomic : Intrinsic
  memmove memmove_element_unordered_atomic memset memset_element_unordered_atomic : Intrinsic
  objc_autorelease objc_autorelease_pool_pop objc_autorelease_pool_push : Intrinsic
  objc_autorelease_return_value objc_clang_arc_use objc_copy_weak objc_destroy_weak : Intrinsic
  objc_init_weak objc_load_weak objc_load_weak_retained objc_move_weak objc_release : Intrinsic
  objc_retain objc_retain_autorelease objc_retainautorelease : Intrinsic
  objc_retain_autorelease_return_value objc_retain_autoreleased_return_value : Intrinsic
  objc_retain_block objc_retained_object objc_store_strong objc_store_weak : Intrinsic
  objc_sync_enter objc_sync_exit objc_unretained_object objc_unretained_pointer : Intrinsic
  objc_unsafe_claim_autoreleased_return_value pow powi round sin sqrt vacopy vaend : Intrinsic
  vastart other_intrinsic : Intrinsic

-- The name of the function is given for an intrinsic that the table has not.
unfoldable pub intrinsic_name : Intrinsic → String → String
intrinsic_name ceil name = "ceil"
intrinsic_name cos name = "cos"
intrinsic_name exp name = "exp"
intrinsic_name exp2 name = "exp2"
intrinsic_name fabs name = "fabs"
intrinsic_name floor name = "floor"
intrinsic_name log name = "log"
intrinsic_name log10 name = "log10"
intrinsic_name log2 name = "log2"
intrinsic_name memcpy name = "memcpy"
intrinsic_name memcpy_element_unordered_atomic name = "memcpy"
intrinsic_name memmove name = "memmove"
intrinsic_name memmove_element_unordered_atomic name = "memmove"
intrinsic_name memset name = "memset"
intrinsic_name memset_element_unordered_atomic name = "memset"
intrinsic_name objc_autorelease name = "objc_autorelease"
intrinsic_name objc_autorelease_pool_pop name = "objc_autoreleasePoolPop"
intrinsic_name objc_autorelease_pool_push name = "objc_autoreleasePoolPush"
intrinsic_name objc_autorelease_return_value name = "objc_autoreleaseReturnValue"
intrinsic_name objc_clang_arc_use name = "objc_clang_arc_use"
intrinsic_name objc_copy_weak name = "objc_copyWeak"
intrinsic_name objc_destroy_weak name = "objc_destroyWeak"
intrinsic_name objc_init_weak name = "objc_initWeak"
intrinsic_name objc_load_weak name = "objc_loadWeak"
intrinsic_name objc_load_weak_retained name = "objc_loadWeakRetained"
intrinsic_name objc_move_weak name = "objc_moveWeak"
intrinsic_name objc_release name = "objc_release"
intrinsic_name objc_retain name = "objc_retain"
intrinsic_name objc_retain_autorelease name = "objc_retain_autorelease"
intrinsic_name objc_retainautorelease name = "objc_retainAutorelease"
intrinsic_name objc_retain_autorelease_return_value name = "objc_retainAutoreleaseReturnValue"
intrinsic_name objc_retain_autoreleased_return_value name = "objc_retainAutoreleasedReturnValue"
intrinsic_name objc_retain_block name = "objc_retainBlock"
intrinsic_name objc_retained_object name = "objc_retainedObject"
intrinsic_name objc_store_strong name = "objc_storeStrong"
intrinsic_name objc_store_weak name = "objc_storeWeak"
intrinsic_name objc_sync_enter name = "objc_sync_enter"
intrinsic_name objc_sync_exit name = "objc_sync_exit"
intrinsic_name objc_unretained_object name = "objc_unretainedObject"
intrinsic_name objc_unretained_pointer name = "objc_unretainedPointer"
intrinsic_name objc_unsafe_claim_autoreleased_return_value name =
    "objc_unsafeClaimAutoreleasedReturnValue"
intrinsic_name pow name = "pow"
intrinsic_name powi name = "pow"
intrinsic_name round name = "round"
intrinsic_name sin name = "sin"
intrinsic_name sqrt name = "sqrt"
intrinsic_name vacopy name = "va_copy"
intrinsic_name vaend name = "va_end"
intrinsic_name vastart name = "va_start"
intrinsic_name other_intrinsic name = name
