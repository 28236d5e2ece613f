-- ===== src/Passes/Uses.antt =====
-- How long a value is used and valid: validUntil, usedUntil and isUsedoutsideBB of
-- lib/Transforms/CustomPasses.cpp. The recursion is on fuel, and `none` is what runs out of it.
use llvm2cpg.Prelude.{
  ℕ, zero, suc, ◌^◌, Bool, true, false, Option, none, some, List, [], ◌∷◌, ◌==◌, ltb, if◌then◌else◌,
}
pub use llvm2cpg.Prelude.Chain.{◌>>=◌, bind-some}
use llvm2cpg.Types.Naming.{lookup}
use llvm2cpg.Passes.Function.{Function, Marks, is_debug}

-- A position, with the instruction that it is from.
abbrev pub Until : Type 0
Until = ℕ × Option ℕ

abbrev pub earlier : Until → Until → Until
earlier a res = if ltb a.0 res.0 then a else res

unfoldable pub valid_base : ℕ → Option ℕ → Until
valid_base i none = (2 ^ 30, none)
valid_base i (some n) = earlier (n, some i) (2 ^ 30, none)

unfoldable pub valid_operand : Bool → Option Until → Until → Option Until
valid_operand false inner res = some res
valid_operand true none res = none
valid_operand true (some a) res = some (earlier a res)

unfoldable pub valid_operands : (ℕ → Option Until) → Marks → List ℕ → Until → Option Until
unfolding valid_operand
valid_operands recurse m [] res = some res
valid_operands recurse m (j ∷ js) res =
    valid_operand (m j) (recurse j) res >>= valid_operands recurse m js

unfoldable pub valid_until : ℕ → Function → Marks → List (ℕ × ℕ) → ℕ → Option Until
unfolding valid_operands valid_base lookup
valid_until zero f m first_spoiler i = none
valid_until (suc fuel) f m first_spoiler i =
    valid_operands (valid_until fuel f m first_spoiler) m (f.instruction i).operands
      (valid_base i (lookup i first_spoiler))

-- std::max on positions, where none stands for -1
abbrev pub later : Option ℕ → Option ℕ → Option ℕ
later none b = b
later (some a) none = some a
later (some a) (some b) = if ltb a b then some b else some a

unfoldable pub used_user : Bool → Bool → Option ℕ → Option (Option ℕ) → Option ℕ → Option (Option ℕ)
used_user true marked number inner res = some res
used_user false false number inner res = some (later res number)
used_user false true number none res = none
used_user false true number (some a) res = some (later (later res number) a)

unfoldable pub used_users :
    (ℕ → Option (Option ℕ))
    → Function
    → Marks
    → List (ℕ × ℕ)
    → List ℕ
    → Option ℕ
    → Option (Option ℕ)
unfolding used_user lookup
used_users recurse f m inst_number [] res = some res
used_users recurse f m inst_number (u ∷ us) res =
    used_user (is_debug f u) (m u) (lookup u inst_number) (recurse u) res
    >>= used_users recurse f m inst_number us

unfoldable pub used_until : ℕ → Function → Marks → List (ℕ × ℕ) → ℕ → Option (Option ℕ)
unfolding used_users
used_until zero f m inst_number i = none
used_until (suc fuel) f m inst_number i =
    used_users (used_until fuel f m inst_number) f m inst_number (f.instruction i).users none

-- In the block, debug or not, marked; what the user gives, and what the rest of the users give.
unfoldable pub outside_user : Bool → Bool → Bool → Option Bool → Option Bool → Option Bool
outside_user false true marked inner rest = rest
outside_user false false marked inner rest = some true
outside_user true debug false inner rest = rest
outside_user true debug true none rest = none
outside_user true debug true (some true) rest = some true
outside_user true debug true (some false) rest = rest

unfoldable pub outside_users : (ℕ → Option Bool) → Function → Marks → ℕ → List ℕ → Option Bool
unfolding outside_user
outside_users recurse f m parent [] = some false
outside_users recurse f m parent (u ∷ us) =
    outside_user ((f.instruction u).parent == parent) (is_debug f u) (m u) (recurse u)
      (outside_users recurse f m parent us)

unfoldable pub is_used_outside_bb : ℕ → Function → Marks → ℕ → Option Bool
unfolding outside_users
is_used_outside_bb zero f m i = none
is_used_outside_bb (suc fuel) f m i =
    outside_users (is_used_outside_bb fuel f m) f m (f.instruction i).parent (f.instruction i).users
