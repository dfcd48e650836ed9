-- ===== src/Schedule/Sorted.antt =====
-- The order of the triggers, which `sortIn` of src/taskPeriodicSchedule.cpp keeps.
use tasking_framework.Base.{
  ℕ, zero, suc, ◌≡◌, ◌≤◌, ◌<◌, refl, true, false, none, some, List, [], ◌∷◌, ◌++◌, arith, Ptr, ltb,
  if◌then◌else◌, update, ◌∙◌, inl, inr, Bool-cases, length, ◌∈◌, ◌∉◌, has-append, has-insert,
  Distinct-insert, Below-insert, Distinct, Distinct-length-le, Below, remove, remove-append, Chain,
  Chain-frame, Chain-insert, last_ptr, last-cons,
}
use tasking_framework.Schedule.{Triggers, Schedule, search_previous, sort_in}

module _ (offset : ℕ → ℕ) where
  abbrev AtLeast : ℕ → List ℕ → Type 0
  AtLeast k [] = Unit {0}
  AtLeast k (x ∷ xs) = (k ≤ offset x) × AtLeast k xs

  -- No trigger stands behind one with a later offset.
  abbrev pub IsSorted : List ℕ → Type 0
  IsSorted [] = Unit {0}
  IsSorted (x ∷ xs) = AtLeast (offset x) xs × IsSorted xs

  -- The first triggers with an earlier offset, and the others.
  abbrev earlier : ℕ → List ℕ → List ℕ
  earlier k [] = []
  earlier k (x ∷ xs) = if ltb (offset x) k then x ∷ earlier k xs else []

  abbrev later : ℕ → List ℕ → List ℕ
  later k [] = []
  later k (x ∷ xs) = if ltb (offset x) k then later k xs else x ∷ xs

  earlier-later : (k : ℕ) (xs : List ℕ) → earlier k xs ++ later k xs ≡ xs
  earlier-later k [] = refl
  earlier-later k (x ∷ xs) = ground (arith, earlier-later k xs)

  -- The triggers before a new one, and those behind it.
  abbrev front : ℕ → List ℕ → List ℕ
  front t [] = []
  front t (x ∷ xs) = if ltb (offset t) (offset x) then [] else x ∷ earlier (offset t) xs

  abbrev back : ℕ → List ℕ → List ℕ
  back t [] = []
  back t (x ∷ xs) = if ltb (offset t) (offset x) then x ∷ xs else later (offset t) xs

  front-back : (t : ℕ) (xs : List ℕ) → front t xs ++ back t xs ≡ xs
  front-back t [] = refl
  front-back t (x ∷ xs) = ground (arith, earlier-later (offset t) xs)

  AtLeast-mono : (j k : ℕ) (xs : List ℕ) → AtLeast k xs → j ≤ k → AtLeast j xs
  AtLeast-mono j k [] a h = tt
  AtLeast-mono j k (x ∷ xs) a h = (omega arith, AtLeast-mono j k xs a.1 h)

  insert-AtLeast :
      (j t : ℕ) (xs : List ℕ)
      → AtLeast j xs
      → j ≤ offset t
      → AtLeast j (earlier (offset t) xs ++ t ∷ later (offset t) xs)
  insert-AtLeast j t [] a h = (h, tt)
  insert-AtLeast j t (x ∷ xs) a h = ground (arith, insert-AtLeast j t xs a.1)

  insert-IsSorted :
      (t : ℕ) (xs : List ℕ)
      → IsSorted xs
      → IsSorted (earlier (offset t) xs ++ t ∷ later (offset t) xs)
  insert-IsSorted t [] s = (tt, tt)
  insert-IsSorted t (x ∷ xs) s = ground (
    arith,
    insert-IsSorted t xs s.1,
    insert-AtLeast (offset x) t xs s.0,
    AtLeast-mono (offset t) (offset x) xs s.0,
  )

  front-IsSorted : (t : ℕ) (xs : List ℕ) → IsSorted xs → IsSorted (front t xs ++ t ∷ back t xs)
  front-IsSorted t [] s = (tt, tt)
  front-IsSorted t (x ∷ xs) s = ground (
    arith,
    insert-IsSorted t xs s.1,
    insert-AtLeast (offset x) t xs s.0,
    AtLeast-mono (offset t) (offset x) xs s.0,
  )

-- The loop ends at the last trigger with an earlier offset.
search-earlier :
    (fuel : ℕ) (s : Triggers) (k x : ℕ) (p : Ptr) (xs : List ℕ)
    → Chain s.next p xs
    → length xs < fuel
    → search_previous fuel s k x p ≡ last_ptr (x ∷ earlier s.offset_time k xs)
unfolding search_previous
search-earlier zero s k x p xs c b = absurd (omega arith)
search-earlier (suc fuel) s k x p [] c b = rw c refl
search-earlier (suc fuel) s k x p (y ∷ xs) c b =
    let rest = search-earlier fuel s k y (s.next y) xs c.1 (omega arith) in
    ground (arith, c.0, rest)

-- The triggers of a schedule: a list in the order of the offsets.
pub record Holds (triggers : ℕ) (s : Triggers) (p : Schedule) (xs : List ℕ) : Type 0 where
  pub chain : Chain s.next p.triggers xs
  pub once : Distinct xs
  pub known : Below triggers xs
  pub sorted : IsSorted s.offset_time xs

module _ (triggers : ℕ) where
  -- The list with the new trigger linked in.
  abbrev Inserted : ℕ → Triggers → Schedule → List ℕ → Type 0
  Inserted t s p xs =
      (next : ℕ → Ptr) × (head : Ptr) × (sort_in triggers t s p
        ≡ some (record s { next = next }, record p { triggers = head }))
      × Chain next head (front s.offset_time t xs ++ t ∷ back s.offset_time t xs)

  sort_in-head :
      (t x : ℕ) (s : Triggers) (p : Schedule) (xs : List ℕ)
      → Holds triggers s p (x ∷ xs)
      → t ∉ (x ∷ xs)
      → ltb (s.offset_time t) (s.offset_time x) ≡ true
      → Inserted t s p (x ∷ xs)
  unfolding sort_in
  sort_in-head t x s p xs h out first = (
    update s.next t (some x),
    some t,
    ground (arith, h.chain.0, first),
    rw first (
      refl,
      (ground arith, (Chain-frame s.next (some x) (x ∷ xs) t (some x) (refl, h.chain.1) out).1),
    ),
  )

  sort_in-behind :
      (t x : ℕ) (s : Triggers) (p : Schedule) (xs : List ℕ)
      → Holds triggers s p (x ∷ xs)
      → t ∉ (x ∷ xs)
      → ltb (s.offset_time t) (s.offset_time x) ≡ false
      → Inserted t s p (x ∷ xs)
  unfolding sort_in
  sort_in-behind t x s p xs h out behind =
      let k = s.offset_time t in
      let before = earlier s.offset_time k xs in
      let whole = earlier-later s.offset_time k xs in
      let bound = Distinct-length-le triggers (x ∷ xs) h.once h.known in
      let (l, last) = last-cons x before in
      let found =
        search-earlier (suc triggers) s k x (s.next x) xs h.chain.1 (omega (arith, bound)) in
      (
        update (update s.next t (s.next l)) l (some t),
        p.triggers,
        ground (arith, h.chain.0, behind, found, last),
        rw behind (
            Chain-insert s.next p.triggers x before t l (later s.offset_time k xs)
              (rw whole h.chain) (rw whole h.once) (rw whole out) last),
      )

  sort_in-Inserted :
      (t : ℕ) (s : Triggers) (p : Schedule) (xs : List ℕ)
      → Holds triggers s p xs
      → t ∉ xs
      → Inserted t s p xs
  unfolding sort_in
  sort_in-Inserted t s p [] h out =
      (update s.next t none, some t, ground (arith, h.chain), (refl, ground arith))
  sort_in-Inserted t s p (x ∷ xs) h out =
      elim (Bool-cases (ltb (s.offset_time t) (s.offset_time x))) [
        | inl first ↦ sort_in-head t x s p xs h out first
        | inr behind ↦ sort_in-behind t x s p xs h out behind
      ]

  -- `sortIn` returns for a trigger that is not in the schedule: the list is in the order of the
  -- offsets again, it holds the new trigger once, and without it it is the list of before.
  pub sort_in-Holds :
      (t : ℕ) (s : Triggers) (p : Schedule) (xs : List ℕ)
      → Holds triggers s p xs
      → t < triggers
      → t ∉ xs
      → (s' : Triggers) × (p' : Schedule) × (ys : List ℕ) × (sort_in triggers t s p ≡ some (s', p'))
        × Holds triggers s' p' ys
        × (t ∈ ys)
        × (remove t ys ≡ xs)
  sort_in-Holds t s p xs h small out =
      let offset = s.offset_time in
      let a = front offset t xs in
      let b = back offset t xs in
      let whole = front-back offset t xs in
      let (next, head, r, chain) = sort_in-Inserted t s p xs h out in
      let absent : t ∉ (a ++ b) = rw whole out in
      (
        record s { next = next },
        record p { triggers = head },
        a ++ t ∷ b,
        r,
        record {
          chain = chain;
          once = Distinct-insert t a b (rw whole h.once) absent;
          known = Below-insert t triggers a b (rw whole h.known) small;
          sorted = front-IsSorted offset t xs h.sorted;
        },
        ground (arith, has-insert t t a b),
        remove-append t a b (ground (arith, has-append t a b)) ∙ whole,
      )
