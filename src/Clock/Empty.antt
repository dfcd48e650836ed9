-- ===== src/Clock/Empty.antt =====
-- Theorems on `dequeueAll` of src/clock.cpp, which the scheduler calls when it terminates.
use tasking_framework.Base.{
  ℕ, zero, suc, ◌≡◌, ◌<◌, refl, true, false, none, some, List, [], ◌∷◌, arith, Ptr, update, ◌==◌,
  inl, inr, Bool-cases, length, ◌∈◌, ◌∉◌, Distinct, Chain, Chain-frame, Distinct-length-le,
}
use tasking_framework.Clock.{Clock, Holds, unlink_all}
use tasking_framework.Clock.Remove.{dequeue_all}

-- The event is marked as not queued, and is not linked.
abbrev pub IsIdle : Clock → ℕ → Type 0
IsIdle c e = (c.queued e ≡ false) × (c.next e ≡ none) × (c.previous e ≡ none)

-- The event is in the two clocks in the same state.
abbrev pub IsSame : Clock → Clock → ℕ → Type 0
IsSame c d e = (d.queued e ≡ c.queued e) × (d.next e ≡ c.next e) × (d.previous e ≡ c.previous e)

abbrev idle : ℕ → Clock → Clock
idle e c = record c {
  queued = update c.queued e false;
  next = update c.next e none;
  previous = update c.previous e none;
}

idle-here : (c d : Clock) (x e : ℕ) → (x == e) ≡ true → IsSame (idle x c) d e → IsIdle d e
idle-here c d x e h s = (ground (arith, s.0), ground (arith, s.1), ground (arith, s.2))

idle-elsewhere : (c d : Clock) (x e : ℕ) → (x == e) ≡ false → IsSame (idle x c) d e → IsSame c d e
idle-elsewhere c d x e h s = (ground (arith, s.0), ground (arith, s.1), ground (arith, s.2))

unlink_all-returns :
    (fuel : ℕ) (p : Ptr) (c : Clock) (xs : List ℕ)
    → Chain c.next p xs
    → Distinct xs
    → length xs < fuel
    → (d : Clock) × (unlink_all fuel p c ≡ some d)
      × ((e : ℕ) → e ∈ xs → IsIdle d e)
      × ((e : ℕ) → e ∉ xs → IsSame c d e)
unfolding unlink_all
unlink_all-returns zero p c xs chain once b = absurd (omega arith)
unlink_all-returns (suc fuel) p c [] chain once b =
    (c, rw chain refl, λ e h. absurd cc, λ e h. (refl, refl, refl))
unlink_all-returns (suc fuel) p c (x ∷ xs) chain once b =
    let (d, r, ins, outs) =
      unlink_all-returns fuel (c.next x) (idle x c) xs
        (Chain-frame c.next (c.next x) xs x none chain.1 once.0) once.1 (omega arith) in
    (
      d,
      rw chain.0 r,
      λ e h. elim (Bool-cases (x == e)) [
        | inl same ↦ idle-here c d x e same (outs e (ground arith))
        | inr other ↦ ins e (ground arith)
      ],
      λ e h. idle-elsewhere c d x e (ground arith) (outs e (ground arith)),
    )

-- `dequeueAll` returns with an empty queue, in which every event that was queued is marked as not
-- queued and not linked, and every other one is as before.
pub dequeue_all-IsIdle :
    (events : ℕ) (c : Clock) (xs : List ℕ)
    → Holds events c xs
    → (d : Clock) × (dequeue_all events c ≡ some d)
      × Holds events d []
      × ((e : ℕ) → e ∈ xs → IsIdle d e)
      × ((e : ℕ) → e ∉ xs → IsSame c d e)
unfolding dequeue_all
dequeue_all-IsIdle events c xs h =
    let (d, r, ins, outs) =
      unlink_all-returns (suc events) c.queue_head (record c { none_pending_head = none }) xs
        h.chain h.once (omega (arith, Distinct-length-le events xs h.once h.known)) in
    (
      record d { queue_head = none; queue_tail = none },
      rw r refl,
      record { chain = refl; end = refl; once = tt; known = tt },
      ins,
      outs,
    )
