-- ===== src/Clock/Order.antt =====
-- The order of the time queue of src/clock.cpp: what the pointers `previous` of its events refer to.
-- Up to a time `n`, which has passed, events stand in any order, since `enqueueHead` puts an event in
-- front of all others; behind them stand the later ones in the order of their times.
use tasking_framework.Base.{
  ℕ, ◌≡◌, ◌≤◌, refl, Bool, true, ◌||◌, none, some, List, [], ◌∷◌, ◌++◌, arith, Ptr, same_ptr, leb,
  ◌==◌, if◌then◌else◌, has, last_or,
}

-- Whether `x` may stand behind `p`.
abbrev pub fits : ℕ → (ℕ → ℕ) → Ptr → ℕ → Bool
fits n time none x = true
fits n time (some y) x = leb (time y) n || leb (time y) (time x)

-- The pointer `previous` of `x` behind `p`: the last event with an earlier time. Before the time `n`
-- it is not used, and may be anything.
abbrev pub expected : ℕ → (ℕ → ℕ) → (ℕ → Ptr) → Ptr → ℕ → Ptr
expected n time previous none x = if leb (time x) n then previous x else none
expected n time previous (some y) x =
    if leb (time x) n then previous x else if time y == time x then previous y else some y

-- The events of the list, which stands behind `p`.
abbrev pub InOrder : ℕ → (ℕ → ℕ) → (ℕ → Ptr) → Ptr → List ℕ → Type 0
InOrder n time previous p [] = Unit {0}
InOrder n time previous p (x ∷ xs) =
    (fits n time p x ≡ true)
    × (previous x ≡ expected n time previous p x)
    × InOrder n time previous (some x) xs

-- Whether `a` is one of the events of the list, or the one before it.
abbrev pub concerns : Ptr → List ℕ → ℕ → Bool
concerns p xs a = same_ptr p (some a) || has a xs

-- The order rests on the events of the list alone, and the one before.
pub InOrder-frame :
    (n : ℕ) (time time' : ℕ → ℕ) (previous previous' : ℕ → Ptr) (p : Ptr) (xs : List ℕ)
    → InOrder n time previous p xs
    → ((a : ℕ) → concerns p xs a ≡ true → (time' a ≡ time a) × (previous' a ≡ previous a))
    → InOrder n time' previous' p xs
InOrder-frame n time time' q q' p [] o same = tt
InOrder-frame n time time' q q' none (x ∷ xs) o same =
    let here = same x (ground arith) in
    (
      refl,
      ground (arith, o.1),
      InOrder-frame n time time' q q' (some x) xs o.2 (λ a m. same a (ground arith)),
    )
InOrder-frame n time time' q q' (some y) (x ∷ xs) o same =
    let here = same x (ground arith) in
    let there = same y (ground arith) in
    (
      ground (arith, o.0),
      ground (arith, o.1),
      InOrder-frame n time time' q q' (some x) xs o.2 (λ a m. same a (ground arith)),
    )

pub InOrder-append :
    (n : ℕ) (time : ℕ → ℕ) (previous : ℕ → Ptr) (p : Ptr) (xs ys : List ℕ)
    → InOrder n time previous p xs
    → InOrder n time previous (last_or p xs) ys
    → InOrder n time previous p (xs ++ ys)
InOrder-append n time q p [] ys o o' = o'
InOrder-append n time q p (x ∷ xs) ys o o' =
    (o.0, o.1, InOrder-append n time q (some x) xs ys o.2 o')

pub InOrder-prefix :
    (n : ℕ) (time : ℕ → ℕ) (previous : ℕ → Ptr) (p : Ptr) (xs ys : List ℕ)
    → InOrder n time previous p (xs ++ ys)
    → InOrder n time previous p xs
InOrder-prefix n time q p [] ys o = tt
InOrder-prefix n time q p (x ∷ xs) ys o = (o.0, o.1, InOrder-prefix n time q (some x) xs ys o.2)

pub InOrder-suffix :
    (n : ℕ) (time : ℕ → ℕ) (previous : ℕ → Ptr) (p : Ptr) (xs ys : List ℕ)
    → InOrder n time previous p (xs ++ ys)
    → InOrder n time previous (last_or p xs) ys
InOrder-suffix n time q p [] ys o = o
InOrder-suffix n time q p (x ∷ xs) ys o = InOrder-suffix n time q (some x) xs ys o.2

-- As time passes, the order stays.
pub InOrder-later :
    (n later : ℕ) (time : ℕ → ℕ) (previous : ℕ → Ptr) (p : Ptr) (xs : List ℕ)
    → n ≤ later
    → InOrder n time previous p xs
    → InOrder later time previous p xs
InOrder-later n later time q p [] le o = tt
InOrder-later n later time q none (x ∷ xs) le o =
    (refl, ground (arith, o.1), InOrder-later n later time q (some x) xs le o.2)
InOrder-later n later time q (some y) (x ∷ xs) le o =
    (ground (arith, o.0), ground (arith, o.1), InOrder-later n later time q (some x) xs le o.2)

-- Without the event `e`, the ones behind it: as they are if the next one has the same time, else
-- at the start of those with a later time.
pub InOrder-gap :
    (n : ℕ) (time : ℕ → ℕ) (previous : ℕ → Ptr) (p : Ptr) (e z : ℕ) (zs : List ℕ)
    → InOrder n time previous p (e ∷ z ∷ zs)
    → time e ≡ time z
    → InOrder n time previous p (z ∷ zs)
InOrder-gap n time q none e z zs o t = (refl, ground (arith, o.1, o.2.0, o.2.1), o.2.2)
InOrder-gap n time q (some y) e z zs o t =
    (ground (arith, o.0), ground (arith, o.1, o.2.0, o.2.1), o.2.2)

pub fits-gap :
    (n : ℕ) (time : ℕ → ℕ) (previous : ℕ → Ptr) (p : Ptr) (e z : ℕ) (zs : List ℕ)
    → InOrder n time previous p (e ∷ z ∷ zs)
    → fits n time p z ≡ true
fits-gap n time q none e z zs o = refl
fits-gap n time q (some y) e z zs o = ground (arith, o.0, o.2.0)
