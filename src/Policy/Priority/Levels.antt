-- ===== src/Policy/Priority/Levels.antt =====
-- Priority order seen from outside: the list falls in priority, and each level is a FIFO.
use mathlib.Core.List.{append-nil}
use tasking_framework.Base.{ℕ, ◌≤◌, ◌<◌, ◌≡◌, refl, List, [], ◌∷◌, ◌++◌, arith, ◌==◌, if◌then◌else◌}
use tasking_framework.Policy.Priority.Place.{place}

module _ (priority : ℕ → ℕ) where
  abbrev pub AtMost : ℕ → List ℕ → Type 0
  AtMost p [] = Unit {0}
  AtMost p (x ∷ xs) = (priority x ≤ p) × AtMost p xs

  -- No task stands behind one of a lower priority.
  abbrev pub IsOrdered : List ℕ → Type 0
  IsOrdered [] = Unit {0}
  IsOrdered (x ∷ xs) = AtMost (priority x) xs × IsOrdered xs

  -- The tasks of priority `p`, in their order.
  abbrev pub level : ℕ → List ℕ → List ℕ
  level p [] = []
  level p (x ∷ xs) = if priority x == p then x ∷ level p xs else level p xs

  AtMost-mono : (p q : ℕ) (xs : List ℕ) → AtMost p xs → p ≤ q → AtMost q xs
  AtMost-mono p q [] a h = tt
  AtMost-mono p q (x ∷ xs) a h = (omega arith, AtMost-mono p q xs a.1 h)

  place-AtMost :
      (t p : ℕ) (xs : List ℕ) → AtMost p xs → priority t ≤ p → AtMost p (place priority t xs)
  unfolding place
  place-AtMost t p [] a h = (h, tt)
  place-AtMost t p (x ∷ xs) a h = ground (arith, place-AtMost t p xs a.1)

  pub place-IsOrdered : (t : ℕ) (xs : List ℕ) → IsOrdered xs → IsOrdered (place priority t xs)
  unfolding place
  place-IsOrdered t [] o = (tt, tt)
  place-IsOrdered t (x ∷ xs) o = ground (
    arith,
    place-IsOrdered t xs o.1,
    place-AtMost t (priority x) xs o.0,
    AtMost-mono (priority x) (priority t) xs o.0,
  )

  -- A level above all priorities of the list is empty.
  pub level-AtMost : (p q : ℕ) (xs : List ℕ) → AtMost q xs → q < p → level p xs ≡ []
  level-AtMost p q [] a h = refl
  level-AtMost p q (x ∷ xs) a h = ground (arith, level-AtMost p q xs a.1)

  pub level-place :
      (t p : ℕ) (xs : List ℕ)
      → IsOrdered xs
      → level p (place priority t xs) ≡ level p xs ++ (if priority t == p then t ∷ [] else [])
  unfolding place
  level-place t p [] o = ground arith
  level-place t p (x ∷ xs) o = ground (
    arith,
    level-place t p xs o.1,
    level-AtMost p (priority x) xs o.0,
    append-nil (level p xs),
    append-nil (x ∷ level p xs),
  )
