-- ===== src/Clock/NextStart.antt =====
-- Theorems on `getNextStartTime` of src/clock.cpp.
use tasking_framework.Base.{
  if◌then◌else◌, ap, ◌∙◌, sym, ℕ, zero, suc, ◌≡◌, ◌≤◌, ◌<◌, refl, none, some, List, [], ◌∷◌, arith,
  Ptr, leb, inl, inr, Bool-cases, length, Chain, Distinct-length-le, is_null,
}
use mathlib.Core.Path.{subst}
use tasking_framework.Clock.{Clock, Holds, first_after}
use tasking_framework.Clock.Remove.{get_next_start_time}

-- The first of the times that lies after `now`, and 0 if none does.
abbrev pub first_time : (ℕ → ℕ) → ℕ → List ℕ → ℕ
first_time time now [] = 0
first_time time now (x ∷ xs) = if leb (time x) now then first_time time now xs else time x

-- The events from the first one on that lies after `now`.
abbrev pub due_later : (ℕ → ℕ) → ℕ → List ℕ → List ℕ
due_later time now [] = []
due_later time now (x ∷ xs) = if leb (time x) now then due_later time now xs else x ∷ xs

abbrev first_ptr : List ℕ → Ptr
first_ptr [] = none
first_ptr (x ∷ xs) = some x

first_after-returns :
    (fuel : ℕ) (next : ℕ → Ptr) (time : ℕ → ℕ) (now : ℕ) (p : Ptr) (xs : List ℕ)
    → Chain next p xs
    → length xs < fuel
    → first_after fuel next time now p ≡ some (first_ptr (due_later time now xs))
unfolding first_after
first_after-returns zero next time now p xs c b = absurd (omega arith)
first_after-returns (suc fuel) next time now p [] c b = rw c refl
first_after-returns (suc fuel) next time now p (x ∷ xs) c b =
    let rest = first_after-returns fuel next time now (next x) xs c.1 (omega arith) in
    ground (arith, c.0, rest)

time_at : (ℕ → ℕ) → Ptr → ℕ
time_at time none = 0
time_at time (some e) = time e

time-first :
    (time : ℕ → ℕ) (now : ℕ) (xs : List ℕ)
    → time_at time (first_ptr (due_later time now xs)) ≡ first_time time now xs
unfolding time_at
time-first time now [] = refl
time-first time now (x ∷ xs) = ground (arith, time-first time now xs)

Chain-first : (next : ℕ → Ptr) (p : Ptr) (xs : List ℕ) → Chain next p xs → p ≡ first_ptr xs
Chain-first next p [] c = c
Chain-first next p (x ∷ xs) c = c.0

due_later-due_later :
    (time : ℕ → ℕ) (before now : ℕ) (xs : List ℕ)
    → before ≤ now
    → due_later time now (due_later time before xs) ≡ due_later time now xs
due_later-due_later time before now [] b = refl
due_later-due_later time before now (x ∷ xs) b =
    ground (arith, due_later-due_later time before now xs b)

length-due_later :
    (time : ℕ → ℕ) (now : ℕ) (xs : List ℕ) → length (due_later time now xs) ≤ length xs
length-due_later time now [] = omega arith
length-due_later time now (x ∷ xs) = ground (arith, length-due_later time now xs)

due_later-Chain :
    (next : ℕ → Ptr) (time : ℕ → ℕ) (now : ℕ) (p : Ptr) (xs : List ℕ)
    → Chain next p xs
    → Chain next (first_ptr (due_later time now xs)) (due_later time now xs)
due_later-Chain next time now p [] c = refl
due_later-Chain next time now p (x ∷ xs) c = elim (Bool-cases (leb (time x) now)) [
  | inl e ↦ rw e (due_later-Chain next time now (next x) xs c.1)
  | inr e ↦ rw e (refl, c.1)
]

-- The mark of the last search is null, or what a search at an earlier time left.
pub data IsMark (c : Clock) (now : ℕ) (xs : List ℕ) : Type 0 where
  unmarked : c.none_pending_head ≡ none → IsMark c now xs
  searched :
      (before : ℕ)
      → before ≤ now
      → c.none_pending_head ≡ first_ptr (due_later c.next_activation before xs)
      → IsMark c now xs

module _ (events : ℕ) where
  start_from : Clock → Ptr
  start_from c = if is_null c.none_pending_head then c.queue_head else c.none_pending_head

  get_next_start_time-from :
      (now : ℕ) (c : Clock) (e : Ptr)
      → first_after (suc events) c.next c.next_activation now (start_from c) ≡ some e
      → get_next_start_time events now c
        ≡ some (record c { none_pending_head = e }, time_at c.next_activation e)
  unfolding start_from get_next_start_time time_at
  get_next_start_time-from now c none h = rw h refl
  get_next_start_time-from now c (some e) h = rw h refl

  start-unmarked : (c : Clock) → c.none_pending_head ≡ none → start_from c ≡ c.queue_head
  unfolding start_from
  start-unmarked c e = ap (λ p. if is_null p then c.queue_head else p) e

  start-marked : (c : Clock) (e : ℕ) → c.none_pending_head ≡ some e → start_from c ≡ some e
  unfolding start_from
  start-marked c e h = ap (λ p. if is_null p then c.queue_head else p) h

  search-unmarked :
      (now : ℕ) (c : Clock) (xs : List ℕ)
      → Holds events c xs
      → c.none_pending_head ≡ none
      → first_after (suc events) c.next c.next_activation now (start_from c)
        ≡ some (first_ptr (due_later c.next_activation now xs))
  search-unmarked now c xs h e = rw (start-unmarked c e) (
      first_after-returns (suc events) c.next c.next_activation now c.queue_head xs h.chain
        (omega (arith, Distinct-length-le events xs h.once h.known)))

  search-searched :
      (now before : ℕ) (c : Clock) (xs zs : List ℕ)
      → Holds events c xs
      → before ≤ now
      → due_later c.next_activation before xs ≡ zs
      → c.none_pending_head ≡ first_ptr zs
      → first_after (suc events) c.next c.next_activation now (start_from c)
        ≡ some (first_ptr (due_later c.next_activation now xs))
  search-searched now before c xs [] h le d e = search-unmarked now c xs h e
  search-searched now before c xs (z ∷ zs) h le d e =
      let time = c.next_activation in
      let chain =
        subst (λ l. Chain c.next (first_ptr l) l) d
          (due_later-Chain c.next time before c.queue_head xs h.chain) in
      let short = subst (λ l. length l ≤ length xs) d (length-due_later time before xs) in
      let known =
        ap (λ l. due_later time now l) (sym d) ∙ due_later-due_later time before now xs le in
      let found =
        first_after-returns (suc events) c.next time now (some z) (z ∷ zs) chain
          (omega (arith, short, Distinct-length-le events xs h.once h.known)) in
      rw (start-marked c z e) (found ∙ ap (λ l. some (first_ptr l)) known)

  search-from :
      (now : ℕ) (c : Clock) (xs : List ℕ)
      → Holds events c xs
      → IsMark c now xs
      → first_after (suc events) c.next c.next_activation now (start_from c)
        ≡ some (first_ptr (due_later c.next_activation now xs))
  search-from now c xs h (unmarked e) = search-unmarked now c xs h e
  search-from now c xs h (searched before le e) =
      search-searched now before c xs (due_later c.next_activation before xs) h le refl e

  -- `getNextStartTime` returns the first time in the queue that lies after `now`, and 0 if there is
  -- none, although it starts at the event that an earlier search has marked; it leaves the queue
  -- alone and a mark that a later search can use.
  pub get_next_start_time-first :
      (now : ℕ) (c : Clock) (xs : List ℕ)
      → Holds events c xs
      → IsMark c now xs
      → (d : Clock) × (get_next_start_time events now c
          ≡ some (d, first_time c.next_activation now xs))
        × Holds events d xs
        × ((later : ℕ) → now ≤ later → IsMark d later xs)
  get_next_start_time-first now c xs h mark =
      let time = c.next_activation in
      let e = first_ptr (due_later time now xs) in
      (
        record c { none_pending_head = e },
        rw (← time-first time now xs)
            (get_next_start_time-from now c e (search-from now c xs h mark)),
        record { chain = h.chain; end = h.end; once = h.once; known = h.known },
        λ later le. searched now le refl,
      )
