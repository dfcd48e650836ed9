-- ===== src/InputArray/Activation.antt =====
-- When the inputs of a task activate it.
use tasking_framework.Base.{
  ℕ, suc, ◌+◌, ◌≡◌, refl, inl, inr, Bool, true, false, Bool-cases, not, ◌&&◌, ◌||◌, none, some,
  List, [], ◌∷◌, arith, length, drop, drop-le, if◌then◌else◌,
}
use tasking_framework.Input.{Input, is_activated, is_optional, is_final}
use tasking_framework.InputArray.{scan, any_final, array_is_activated}

-- An input that is not activated and may not be left out.
abbrev blocks : Input → Bool
blocks i = not (is_activated i) && not (is_final i) && not (is_optional i)

-- The contract: an activated final input, or no input that blocks.
unfoldable pub some_final : List Input → Bool
some_final [] = false
some_final (i ∷ is) = (is_activated i && is_final i) || some_final is

pub none_blocks : List Input → Bool
none_blocks [] = true
none_blocks (i ∷ is) = not (blocks i) && none_blocks is

any_final-some_final : (is : List Input) → any_final is ≡ some_final is
unfolding any_final some_final
any_final-some_final [] = refl
any_final-some_final (i ∷ is) = ground (arith, any_final-some_final is)

-- The outcome of the first loop over the rest of the array from index `n`: it found no blocking
-- input that counts, or it stopped at one, behind which the second loop goes on.
data Pass (len n : ℕ) (is : List Input) : Type 0 where
  through : scan len n is ≡ (true, len) → (some_final is || none_blocks is) ≡ true → Pass len n is
  stopped :
      (j : ℕ)
      → scan len n is ≡ (false, n + j)
      → some_final is ≡ any_final (drop (suc j) is)
      → none_blocks is ≡ false
      → Pass len n is

Pass-skip :
    (len n : ℕ) (i : Input) (is : List Input)
    → blocks i ≡ false
    → (is_activated i && is_final i) ≡ false
    → Pass len (suc n) is
    → Pass len n (i ∷ is)
unfolding scan some_final none_blocks
Pass-skip len n i is b f (through e t) = through (ground arith) (ground arith)
Pass-skip len n i is b f (stopped j e s t) =
    stopped (suc j) (ground arith) (ground arith) (ground arith)

scan-Pass : (len n : ℕ) (is : List Input) → Pass len n is
unfolding scan some_final none_blocks
scan-Pass len n [] = through refl refl
scan-Pass len n (i ∷ is) = elim (Bool-cases (blocks i)) [
  | inl b ↦ stopped 0 (ground arith) (ground (arith, any_final-some_final is)) (ground arith)
  | inr b ↦ elim (Bool-cases (is_activated i && is_final i)) [
    | inl f ↦ through (ground arith) (ground arith)
    | inr f ↦ Pass-skip len n i is b f (scan-Pass len (suc n) is)
  ]
]

activated_from :
    (is : List Input)
    → Pass (length is) 0 is
    → array_is_activated none is ≡ (some_final is || none_blocks is)
unfolding array_is_activated
activated_from is (through e t) = rw (e, drop-le (length is + 1) is (omega arith)) (ground arith)
activated_from is (stopped j e s t) =
    let same : 0 + j + 1 ≡ suc j = omega arith in rw (e, s, t, same) (ground arith)

array_is_activated_lem :
    (is : List Input) → array_is_activated none is ≡ (some_final is || none_blocks is)
array_is_activated_lem is = activated_from is (scan-Pass (length is) 0 is)

-- The condition that the documentation states: each input is activated or optional, or an activated one
-- is final.
unfoldable pub all_activated : List Input → Bool
all_activated [] = true
all_activated (i ∷ is) = (is_activated i || is_optional i) && all_activated is

unfoldable pub documented : List Input → Bool
documented is = some_final is || all_activated is

pub non_final : List Input → List Input
non_final [] = []
non_final (i ∷ is) = if is_final i then non_final is else i ∷ non_final is

none_blocks-non_final : (is : List Input) → none_blocks is ≡ all_activated (non_final is)
unfolding none_blocks all_activated non_final
none_blocks-non_final [] = refl
none_blocks-non_final (i ∷ is) = ground (arith, none_blocks-non_final is)

all_activated-non_final :
    (is : List Input) → all_activated is ≡ true → all_activated (non_final is) ≡ true
unfolding all_activated non_final
all_activated-non_final [] e = refl
all_activated-non_final (i ∷ is) e = ground (arith, all_activated-non_final is)

-- With no alternative condition the inputs activate the task exactly when the documented condition
-- holds, or each input that is not final is activated or optional. In the second case, which the
-- documentation does not have, no final input needs to be activated.
pub activated-documented :
    (is : List Input) → array_is_activated none is ≡ (documented is || all_activated (non_final is))
unfolding documented
activated-documented is =
    ground (arith, array_is_activated_lem is, none_blocks-non_final is, all_activated-non_final is)

-- With an alternative condition the inputs activate the task exactly when it holds, or an input
-- other than the first is activated and final.
pub activated_condition :
    (condition : List Input → Bool) (is : List Input)
    → array_is_activated (some condition) is ≡ (condition is || some_final (drop 1 is))
unfolding array_is_activated
activated_condition condition is = elim (Bool-cases (condition is)) [
  | inl e ↦ ground (arith, drop-le (length is + 1) is)
  | inr e ↦ rw (e) (ground (arith, any_final-some_final (drop 1 is)))
]
