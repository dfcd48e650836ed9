-- ===== src/Policy/PSlot/Slots.antt =====
-- The slots of src/schedulePolicyPSlot.cpp: limits, and the search for the next slot with a task.
use tasking_framework.Base.{
  ℕ, zero, suc, ◌^◌, ◌≡◌, ◌∙◌, sym, ◌≢◌, ◌<◌, refl, true, false, inl, inr, Bool-cases, List, [],
  ◌∷◌, arith, Ptr, is_null, ltb, ◌==◌, ◌∈◌, ◌∉◌, Distinct, is_empty,
}
use tasking_framework.Policy.Priority.Levels.{AtMost, IsOrdered, level, level-AtMost}
use tasking_framework.Policy.PSlot.{slot, down, top}

module _ (slots : ℕ) (priority : ℕ → ℕ) where
  -- With at least one slot, every task has a slot of the array.
  pub slot-lt : (t : ℕ) → 0 < slots → slots < 2 ^ 32 → slot slots priority t < slots
  unfolding slot
  slot-lt t pos small = ground arith

-- What stands in a level stands in the list, and has that slot.
pub mem-level : (f : ℕ → ℕ) (p a : ℕ) (xs : List ℕ) → a ∈ level f p xs → (f a ≡ p) × (a ∈ xs)
mem-level f p a [] m = cc
mem-level f p a (x ∷ xs) m = ground (arith, mem-level f p a xs)

pub level-out : (f : ℕ → ℕ) (p a : ℕ) (xs : List ℕ) → a ∉ xs → a ∉ level f p xs
level-out f p a [] out = refl
level-out f p a (x ∷ xs) out = ground (arith, level-out f p a xs)

pub level-Distinct : (f : ℕ → ℕ) (p : ℕ) (xs : List ℕ) → Distinct xs → Distinct (level f p xs)
level-Distinct f p [] d = tt
level-Distinct f p (x ∷ xs) d = ground (arith, level-Distinct f p xs d.1, level-out f p x xs)

pub AtMost-down :
    (f : ℕ → ℕ) (h : ℕ) (xs : List ℕ)
    → AtMost f (suc h) xs
    → level f (suc h) xs ≡ []
    → AtMost f h xs
AtMost-down f h [] a e = tt
AtMost-down f h (x ∷ xs) a e = ground (arith, AtMost-down f h xs a.1)

pub nil_of_empty : (xs : List ℕ) → is_empty xs ≡ true → xs ≡ []
nil_of_empty [] e = refl
nil_of_empty (x ∷ xs) e = cc

cons_of_filled : (xs : List ℕ) → is_empty xs ≡ false → xs ≢ []
cons_of_filled [] e = cc
cons_of_filled (x ∷ xs) e = λ q. cc

-- In slot order, a level that no task exceeds begins the list, if it has a task.
top-level_cons :
    (f : ℕ → ℕ) (h x : ℕ) (xs : List ℕ)
    → AtMost f h (x ∷ xs)
    → IsOrdered f (x ∷ xs)
    → level f h (x ∷ xs) ≢ []
    → f x ≡ h
top-level_cons f h x xs a o ne = elim (Bool-cases (f x == h)) [
  | inl e ↦ ground arith
  | inr e ↦ absurd (ne (ground (arith, level-AtMost f h (f x) xs o.0)))
]

module _ (slots : ℕ) (priority : ℕ → ℕ) where
  pub top-level :
      (h : ℕ) (xs : List ℕ)
      → AtMost (slot slots priority) h xs
      → IsOrdered (slot slots priority) xs
      → level (slot slots priority) h xs ≢ []
      → top slots priority xs ≡ h
  unfolding top
  top-level h [] a o ne = absurd (ne refl)
  top-level h (x ∷ xs) a o ne = top-level_cons (slot slots priority) h x xs a o ne

  -- The loop finds the slot of the first task, if its heads are null exactly at the empty levels.
  pub down-top :
      (heads : ℕ → Ptr) (h : ℕ) (xs : List ℕ)
      → h < slots
      → AtMost (slot slots priority) h xs
      → IsOrdered (slot slots priority) xs
      → ((i : ℕ) → i < slots → is_null (heads i) ≡ is_empty (level (slot slots priority) i xs))
      → down slots priority heads h ≡ top slots priority xs
  unfolding down top
  down-top heads zero [] b a o e = ground (arith, e 0)
  down-top heads zero (x ∷ xs) b a o e = ground (arith, e 0)
  down-top heads (suc h) xs b a o e =
      let within : ltb (suc h) slots ≡ true = ground arith in
      elim (Bool-cases (is_null (heads (suc h)))) [
        | inl gone ↦
            let empty =
              nil_of_empty (level (slot slots priority) (suc h) xs) (sym (e (suc h) b) ∙ gone) in
            rw (within, gone)
              (down-top heads h xs (omega arith) (AtMost-down (slot slots priority) h xs a empty) o
                e)
        | inr found ↦
            let filled =
              cons_of_filled (level (slot slots priority) (suc h) xs) (sym (e (suc h) b) ∙ found) in
            rw (within, found) (sym (top-level (suc h) xs a o filled))
      ]
