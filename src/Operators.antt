-- ===== src/Operators.antt =====
-- Names of operators: lib/CPG/CPGOperatorNames.cpp. The opcode and predicate names that LLVM
-- prints are arguments.
use llvm2cpg.Prelude.{String, ◌<>◌}

pub data BinaryOpcode : Type 0 where
  add fadd sub fsub mul fmul udiv sdiv fdiv urem srem frem : BinaryOpcode
  shl lshr ashr and or xor : BinaryOpcode

unfoldable pub binary_operator_name : BinaryOpcode → String
binary_operator_name BinaryOpcode.add = "<operator>.addition"
binary_operator_name BinaryOpcode.fadd = "<operator>.addition"
binary_operator_name BinaryOpcode.sub = "<operator>.subtraction"
binary_operator_name BinaryOpcode.fsub = "<operator>.subtraction"
binary_operator_name BinaryOpcode.mul = "<operator>.multiplication"
binary_operator_name BinaryOpcode.fmul = "<operator>.multiplication"
binary_operator_name BinaryOpcode.udiv = "<operator>.division"
binary_operator_name BinaryOpcode.sdiv = "<operator>.division"
binary_operator_name BinaryOpcode.fdiv = "<operator>.division"
binary_operator_name BinaryOpcode.urem = "<operator>.modulo"
binary_operator_name BinaryOpcode.srem = "<operator>.modulo"
binary_operator_name BinaryOpcode.frem = "<operator>.modulo"
binary_operator_name BinaryOpcode.shl = "<operator>.shiftLeft"
binary_operator_name BinaryOpcode.lshr = "<operator>.logicalShiftRight"
binary_operator_name BinaryOpcode.ashr = "<operator>.arithmeticShiftRight"
binary_operator_name BinaryOpcode.and = "<operator>.and"
binary_operator_name BinaryOpcode.or = "<operator>.or"
binary_operator_name BinaryOpcode.xor = "<operator>.xor"

unfoldable pub binary_operator_name_short : BinaryOpcode → String
binary_operator_name_short BinaryOpcode.add = "+"
binary_operator_name_short BinaryOpcode.fadd = "+"
binary_operator_name_short BinaryOpcode.sub = "-"
binary_operator_name_short BinaryOpcode.fsub = "-"
binary_operator_name_short BinaryOpcode.mul = "*"
binary_operator_name_short BinaryOpcode.fmul = "*"
binary_operator_name_short BinaryOpcode.udiv = "/"
binary_operator_name_short BinaryOpcode.sdiv = "/"
binary_operator_name_short BinaryOpcode.fdiv = "/"
binary_operator_name_short BinaryOpcode.urem = "%"
binary_operator_name_short BinaryOpcode.srem = "%"
binary_operator_name_short BinaryOpcode.frem = "%"
binary_operator_name_short BinaryOpcode.shl = "<<"
binary_operator_name_short BinaryOpcode.lshr = ">>"
binary_operator_name_short BinaryOpcode.ashr = ">>"
binary_operator_name_short BinaryOpcode.and = "&&"
binary_operator_name_short BinaryOpcode.or = "||"
binary_operator_name_short BinaryOpcode.xor = "^"

pub data Predicate : Type 0 where
  fcmp_false fcmp_oeq fcmp_ogt fcmp_oge fcmp_olt fcmp_ole fcmp_one fcmp_ord : Predicate
  fcmp_uno fcmp_ueq fcmp_ugt fcmp_uge fcmp_ult fcmp_ule fcmp_une fcmp_true : Predicate
  bad_fcmp_predicate bad_icmp_predicate : Predicate
  icmp_eq icmp_ne icmp_ugt icmp_uge icmp_ult icmp_ule icmp_sgt icmp_sge icmp_slt icmp_sle :
      Predicate

unfoldable pub comparison_operator_name : (opcode_name predicate_name : String) → Predicate → String
comparison_operator_name o n fcmp_oeq = "<operator>.equals"
comparison_operator_name o n fcmp_ueq = "<operator>.equals"
comparison_operator_name o n icmp_eq = "<operator>.equals"
comparison_operator_name o n fcmp_one = "<operator>.notEquals"
comparison_operator_name o n fcmp_une = "<operator>.notEquals"
comparison_operator_name o n icmp_ne = "<operator>.notEquals"
comparison_operator_name o n fcmp_ogt = "<operator>.greaterThan"
comparison_operator_name o n fcmp_ugt = "<operator>.greaterThan"
comparison_operator_name o n icmp_ugt = "<operator>.greaterThan"
comparison_operator_name o n icmp_sgt = "<operator>.greaterThan"
comparison_operator_name o n fcmp_olt = "<operator>.lessThan"
comparison_operator_name o n fcmp_ult = "<operator>.lessThan"
comparison_operator_name o n icmp_ult = "<operator>.lessThan"
comparison_operator_name o n icmp_slt = "<operator>.lessThan"
comparison_operator_name o n icmp_uge = "<operator>.greaterEqualsThan"
comparison_operator_name o n fcmp_oge = "<operator>.greaterEqualsThan"
comparison_operator_name o n fcmp_uge = "<operator>.greaterEqualsThan"
comparison_operator_name o n icmp_sge = "<operator>.greaterEqualsThan"
comparison_operator_name o n fcmp_ole = "<operator>.lessEqualsThan"
comparison_operator_name o n fcmp_ule = "<operator>.lessEqualsThan"
comparison_operator_name o n icmp_ule = "<operator>.lessEqualsThan"
comparison_operator_name o n icmp_sle = "<operator>.lessEqualsThan"
comparison_operator_name o n fcmp_false = o <> n
comparison_operator_name o n fcmp_ord = o <> n
comparison_operator_name o n fcmp_uno = o <> n
comparison_operator_name o n fcmp_true = o <> n
comparison_operator_name o n bad_fcmp_predicate = o <> n
comparison_operator_name o n bad_icmp_predicate = o <> n

unfoldable pub comparison_operator_name_short :
    (opcode_name predicate_name : String) → Predicate → String
comparison_operator_name_short o n fcmp_oeq = "=="
comparison_operator_name_short o n fcmp_ueq = "=="
comparison_operator_name_short o n icmp_eq = "=="
comparison_operator_name_short o n fcmp_one = "!="
comparison_operator_name_short o n fcmp_une = "!="
comparison_operator_name_short o n icmp_ne = "!="
comparison_operator_name_short o n fcmp_ogt = ">"
comparison_operator_name_short o n fcmp_ugt = ">"
comparison_operator_name_short o n icmp_ugt = ">"
comparison_operator_name_short o n icmp_sgt = ">"
comparison_operator_name_short o n fcmp_olt = "<"
comparison_operator_name_short o n fcmp_ult = "<"
comparison_operator_name_short o n icmp_ult = "<"
comparison_operator_name_short o n icmp_slt = "<"
comparison_operator_name_short o n icmp_uge = ">="
comparison_operator_name_short o n fcmp_oge = ">="
comparison_operator_name_short o n fcmp_uge = ">="
comparison_operator_name_short o n icmp_sge = ">="
comparison_operator_name_short o n fcmp_ole = "<="
comparison_operator_name_short o n fcmp_ule = "<="
comparison_operator_name_short o n icmp_ule = "<="
comparison_operator_name_short o n icmp_sle = "<="
comparison_operator_name_short o n fcmp_false = o <> n
comparison_operator_name_short o n fcmp_ord = o <> n
comparison_operator_name_short o n fcmp_uno = o <> n
comparison_operator_name_short o n fcmp_true = o <> n
comparison_operator_name_short o n bad_fcmp_predicate = o <> n
comparison_operator_name_short o n bad_icmp_predicate = o <> n

pub data AtomicOperation : Type 0 where
  xchg add fadd sub fsub and nand or xor max umax min umin bad_binop : AtomicOperation

unfoldable pub atomic_operator_name : AtomicOperation → String
atomic_operator_name AtomicOperation.xchg = "<operator>.atomicXchg"
atomic_operator_name AtomicOperation.add = "<operator>.atomicAddition"
atomic_operator_name AtomicOperation.fadd = "<operator>.atomicAddition"
atomic_operator_name AtomicOperation.sub = "<operator>.atomicSubtraction"
atomic_operator_name AtomicOperation.fsub = "<operator>.atomicSubtraction"
atomic_operator_name AtomicOperation.and = "<operator>.atomicAnd"
atomic_operator_name AtomicOperation.nand = "<operator>.atomicNand"
atomic_operator_name AtomicOperation.or = "<operator>.atomicOr"
atomic_operator_name AtomicOperation.xor = "<operator>.atomicXor"
atomic_operator_name AtomicOperation.umax = "<operator>.atomicMax"
atomic_operator_name AtomicOperation.max = "<operator>.atomicMax"
atomic_operator_name AtomicOperation.umin = "<operator>.atomicMin"
atomic_operator_name AtomicOperation.min = "<operator>.atomicMin"
atomic_operator_name AtomicOperation.bad_binop = "<operator>.atomicBAD_BINOP"

unfoldable pub cast_operator_name : String
cast_operator_name = "<operator>.cast"

unfoldable pub unary_operator_name : String
unary_operator_name = "<operator>.fneg"
