-- ===== src/Policy/Priority/Place.antt =====
-- Where src/schedulePolicyPriority.cpp puts a new task: `queue` walks the linked list to the place
-- that a sorted insertion gives.
use tasking_framework.Base.{
  ℕ, zero, suc, ◌≡◌, ◌<◌, ◌||◌, refl, inl, inr, true, false, Bool-cases, none, some, List, [], ◌∷◌,
  arith, Ptr, ltb, leb, ◌==◌, if◌then◌else◌, update, has, ◌∈◌, ◌∉◌, Distinct, Below, length, Chain,
  Chain-frame,
}
use tasking_framework.Policy.Priority.{search}

module _ (priority : ℕ → ℕ) where
  -- Insertion behind all tasks of the same or a higher priority.
  unfoldable pub place : ℕ → List ℕ → List ℕ
  place t [] = t ∷ []
  place t (x ∷ xs) = if ltb (priority x) (priority t) then t ∷ x ∷ xs else x ∷ place t xs

  pub has-place : (a t : ℕ) (xs : List ℕ) → has a (place t xs) ≡ ((a == t) || has a xs)
  unfolding place
  has-place a t [] = refl
  has-place a t (x ∷ xs) = ground (arith, has-place a t xs)

  pub place-Distinct : (t : ℕ) (xs : List ℕ) → Distinct xs → t ∉ xs → Distinct (place t xs)
  unfolding place
  place-Distinct t [] d out = (refl, tt)
  place-Distinct t (x ∷ xs) d out = ground (arith, place-Distinct t xs d.1, has-place x t xs)

  pub place-Below : (n t : ℕ) (xs : List ℕ) → Below n xs → t < n → Below n (place t xs)
  unfolding place
  place-Below n t [] b h = (h, tt)
  place-Below n t (x ∷ xs) b h = ground (arith, place-Below n t xs b.1)

module _ (tasks : ℕ) (priority : ℕ → ℕ) where
  -- The outcome of the loop: a place behind a task of the list, where linking in the new task
  -- gives the sorted insertion.
  pub record Found (next : ℕ → Ptr) (t x : ℕ) (xs : List ℕ) (fuel : ℕ) : Type 0 where
    pub previous : ℕ
    pub following : Ptr
    pub result :
        search tasks priority fuel next (priority t) x (next x) ≡ some (previous, following)
    pub inside : previous ∈ (x ∷ xs)
    pub chain :
        Chain
          (update (update next t following) previous (some t))
          (some x)
          (x ∷ place priority t xs)

  stop_here :
      (next : ℕ → Ptr) (t x y : ℕ) (xs : List ℕ) (fuel : ℕ)
      → Chain next (next x) (y ∷ xs)
      → Distinct (x ∷ y ∷ xs)
      → t ∉ (x ∷ y ∷ xs)
      → leb (priority t) (priority y) ≡ false
      → Found next t x (y ∷ xs) (suc fuel)
  unfolding search place
  stop_here next t x y xs fuel c d out stop =
      let lower : ltb (priority y) (priority t) ≡ true = ground arith in
      let once = Chain-frame next (some y) (y ∷ xs) t (some y) (refl, c.1) (ground arith) in
      let twice = Chain-frame (update next t (some y)) (some y) (y ∷ xs) x (some t) once (d.0) in
      record {
        previous = x;
        following = some y;
        result = rw c.0 (rw stop refl);
        inside = ground arith;
        chain = (refl, rw lower (ground arith, (ground arith, twice.1)));
      }

  go_on :
      (next : ℕ → Ptr) (t x y : ℕ) (xs : List ℕ) (fuel : ℕ)
      → Chain next (next x) (y ∷ xs)
      → Distinct (x ∷ y ∷ xs)
      → t ∉ (x ∷ y ∷ xs)
      → leb (priority t) (priority y) ≡ true
      → Found next t y xs fuel
      → Found next t x (y ∷ xs) (suc fuel)
  unfolding search place
  go_on next t x y xs fuel c d out on r =
      let higher : ltb (priority y) (priority t) ≡ false = ground arith in
      record {
        previous = r.previous;
        following = r.following;
        result = rw c.0 (rw on r.result);
        inside = ground (arith, r.inside);
        chain = (refl, rw higher (ground (arith, r.inside), r.chain.1));
      }

  pub search-Found :
      (next : ℕ → Ptr) (t x : ℕ) (xs : List ℕ) (fuel : ℕ)
      → Chain next (next x) xs
      → Distinct (x ∷ xs)
      → t ∉ (x ∷ xs)
      → length xs < fuel
      → Found next t x xs fuel
  unfolding search place
  search-Found next t x xs zero c d out l = absurd (omega arith)
  search-Found next t x [] (suc fuel) c d out l = record {
    previous = x;
    following = none;
    result = rw c refl;
    inside = ground arith;
    chain = (refl, (ground arith, ground arith));
  }
  search-Found next t x (y ∷ xs) (suc fuel) c d out l =
      elim (Bool-cases (leb (priority t) (priority y))) [
        | inl on ↦
            go_on next t x y xs fuel c d out on
              (search-Found next t y xs fuel c.1 d.1 (ground arith) (omega arith))
        | inr stop ↦ stop_here next t x y xs fuel c d out stop
      ]
