-- ===== src/Clock/Search.antt =====
-- The search of `enqueue` of src/clock.cpp for the place of an event in the time queue.
use tasking_framework.Base.{
  ℕ, zero, suc, ◌+◌, ◌≡◌, ◌⊎◌, ◌≤◌, ◌<◌, refl, ap, ◌∙◌, true, none, some, List, [], ◌∷◌, ◌++◌,
  arith, Ptr, leb, if◌then◌else◌, inl, inr, Bool-cases, length, last_or,
}
use tasking_framework.Clock.{search_back}
use tasking_framework.Clock.Order.{fits, expected, InOrder}

-- The events before the first one that is later than `t`, and those from it on.
abbrev pub early : (ℕ → ℕ) → ℕ → List ℕ → List ℕ
early time t [] = []
early time t (x ∷ xs) = if leb (time x) t then x ∷ early time t xs else []

abbrev pub late : (ℕ → ℕ) → ℕ → List ℕ → List ℕ
late time t [] = []
late time t (x ∷ xs) = if leb (time x) t then late time t xs else x ∷ xs

pub early-late : (time : ℕ → ℕ) (t : ℕ) (xs : List ℕ) → early time t xs ++ late time t xs ≡ xs
early-late time t [] = refl
early-late time t (x ∷ xs) = ground (arith, early-late time t xs)

pub late-head :
    (time : ℕ → ℕ) (t : ℕ) (xs : List ℕ) (z : ℕ) (zs : List ℕ)
    → late time t xs ≡ z ∷ zs
    → t < time z
late-head time t [] z zs e = absurd (cc)
late-head time t (x ∷ xs) z zs e = ground (arith, late-head time t xs z zs)

pub early-last :
    (time : ℕ → ℕ) (t : ℕ) (q : Ptr) (xs : List ℕ) (p : ℕ)
    → last_or q (early time t xs) ≡ some p
    → (q ≡ some p) ⊎ (time p ≤ t)
early-last time t q [] p e = inl e
early-last time t q (x ∷ xs) p e = elim (Bool-cases (leb (time x) t)) [
  | inr n ↦ inl (ground (arith, e))
  | inl y ↦ elim (early-last time t (some x) xs p (ground (arith, e))) [
    | inl h ↦ inr (ground arith)
    | inr h ↦ inr h
  ]
]

-- The last event that is not later than `t`, or what stands before the list.
abbrev latest : (ℕ → ℕ) → ℕ → Ptr → List ℕ → Ptr
latest time t q [] = q
latest time t q (x ∷ xs) = latest time t (if leb (time x) t then some x else q) xs

module _ (n : ℕ) (time : ℕ → ℕ) (previous : ℕ → Ptr) (t : ℕ) (h : n < t) where
  latest-late :
      (q : Ptr) (y : ℕ) (xs : List ℕ)
      → t < time y
      → InOrder n time previous (some y) xs
      → latest time t q xs ≡ q
  latest-late q y [] l o = refl
  latest-late q y (x ∷ xs) l o =
      let l' : t < time x = ground (arith, o.0) in ground (arith, latest-late q x xs l' o.2)

  latest-early :
      (q : Ptr) (xs : List ℕ) (p : Ptr)
      → InOrder n time previous p xs
      → latest time t q xs ≡ last_or q (early time t xs)
  latest-early q [] p o = refl
  latest-early q (x ∷ xs) p o =
      ground (arith, latest-early (some x) xs (some x) o.2, latest-late q x xs)

  -- From `p` on, the search finds `q` within `k` rounds.
  abbrev Finds : ℕ → Ptr → Ptr → Type 0
  Finds k p q = (fuel : ℕ) → k < fuel → search_back fuel previous time t p ≡ some q

  Finds-behind :
      (k : ℕ) (p q : Ptr) (x : ℕ)
      → fits n time p x ≡ true
      → previous x ≡ expected n time previous p x
      → Finds k p q
      → Finds (suc k) (some x) (if leb (time x) t then some x else q)
  unfolding search_back
  Finds-behind k p q x f e found zero b = absurd (omega arith)
  Finds-behind k none q x f e found (suc fuel) b = ground (arith, e, found fuel (omega arith))
  Finds-behind k (some y) q x f e found (suc fuel) b =
      ground (arith, e, f, found fuel (omega arith), found (suc fuel) (omega arith))

  Finds-latest :
      (k : ℕ) (p q : Ptr) (xs : List ℕ)
      → InOrder n time previous p xs
      → Finds k p q
      → Finds (length xs + k) (last_or p xs) (latest time t q xs)
  Finds-latest k p q [] o found = λ fuel b. found fuel (omega arith)
  Finds-latest k p q (x ∷ xs) o found = λ fuel b.
      Finds-latest (suc k) (some x) (if leb (time x) t then some x else q) xs o.2
        (Finds-behind k p q x o.0 o.1 found) fuel (omega arith)

  no_event : Finds 0 none none
  unfolding search_back
  no_event zero b = absurd (omega arith)
  no_event (suc fuel) b = refl

  -- From the end of the queue the search finds the last event that is not later than `t`.
  pub search_back-early :
      (fuel : ℕ) (xs : List ℕ)
      → InOrder n time previous none xs
      → length xs < fuel
      → search_back fuel previous time t (last_or none xs) ≡ some (last_or none (early time t xs))
  search_back-early fuel xs o b =
      Finds-latest 0 none none xs o no_event fuel (omega arith)
      ∙ ap some (latest-early none xs none o)
