-- ===== src/FifoChannel/Run.antt =====
-- Any calls of the FIFO channel of channels/src/fifoGeneric.cpp by its writer and its only reader.
use tasking_framework.Base.{
  ℕ, ◌≡◌, refl, ap, Bool, true, false, Option, none, some, List, [], ◌∷◌, ◌++◌, arith, Ptr,
  if◌then◌else◌, ◌>>=◌, inl, inr, Bool-cases, has, remove,
}
use tasking_framework.FifoChannel
use tasking_framework.FifoChannel.{FifoGeneric, init, chain_up}
use tasking_framework.FifoChannel.Lists.{Holds}
use tasking_framework.FifoChannel.Moves.{allocate-cons, pop-cons}
use tasking_framework.FifoChannel.Taken.{push-snoc, release-cons, push-absent}

pub data Call : Type 0 where
  allocate pop : Call
  push release : ℕ → Call

pub data Answer : Type 0 where
  element : Ptr → Answer
  pushed : Bool → Answer
  released : Answer

-- The three lists of elements.
pub record Lists : Type 0 where
  pub unused : List ℕ
  pub allocated : List ℕ
  pub fifo : List ℕ

take_unused : List ℕ → Lists → Lists × Answer
take_unused [] l = (l, element none)
take_unused (x ∷ us) l = (record l { unused = us; allocated = x ∷ l.allocated }, element (some x))

take_fifo : List ℕ → Lists → Lists × Answer
take_fifo [] l = (l, element none)
take_fifo (x ∷ qs) l = (record l { fifo = qs; allocated = x ∷ l.allocated }, element (some x))

-- What a call does to the lists: elements only move between them.
unfoldable pub on_lists : Call → Lists → Lists × Answer
unfolding take_unused take_fifo
on_lists allocate l = take_unused l.unused l
on_lists pop l = take_fifo l.fifo l
on_lists (push d) l =
    if has d l.allocated
    then (record l { allocated = remove d l.allocated; fifo = l.fifo ++ d ∷ [] }, pushed true)
    else (l, pushed false)
on_lists (release d) l =
    if has d l.allocated
    then (record l { allocated = remove d l.allocated; unused = d ∷ l.unused }, released)
    else (l, released)

unfoldable pub run_lists : List Call → Lists → Lists × List Answer
run_lists [] l = (l, [])
run_lists (c ∷ cs) l =
    let (l', a) = on_lists c l in let (l'', answers) = run_lists cs l' in (l'', a ∷ answers)

abbrev pub HoldsLists : ℕ → FifoGeneric → Lists → Type 0
HoldsLists items s l = Holds items s l.unused l.allocated l.fifo

module _ (items : ℕ) where
  unfoldable pub step : Call → FifoGeneric → Option (FifoGeneric × Answer)
  step allocate s = let (s', p) = FifoChannel.allocate s in some (s', element p)
  step pop s = let (s', p) = FifoChannel.pop s in some (s', element p)
  step (push d) s = do (s', b) ← FifoChannel.push items d s; some (s', pushed b)
  step (release d) s = do s' ← FifoChannel.release items d 1 s; some (s', released)

  unfoldable pub run : List Call → FifoGeneric → Option (FifoGeneric × List Answer)
  run [] s = some (s, [])
  run (c ∷ cs) s = do (s', a) ← step c s; (s'', answers) ← run cs s'; some (s'', a ∷ answers)

  -- The code does to its links what the call does to the lists.
  abbrev Refines : Call → FifoGeneric → Lists → Type 0
  Refines c s l =
      (s' : FifoGeneric) × (step c s ≡ some (s', (on_lists c l).1))
      × HoldsLists items s' (on_lists c l).0

  allocate-Refines :
      (s : FifoGeneric) (us xs qs : List ℕ)
      → Holds items s us xs qs
      → Refines allocate s (record { unused = us; allocated = xs; fifo = qs })
  unfolding step on_lists FifoChannel.allocate
  allocate-Refines s [] xs qs h = (s, ground (arith, h.unused), h)
  allocate-Refines s (x ∷ us) xs qs h =
      let (s', r, holds) = allocate-cons items s x us xs qs h in
      (s', ap (λ (r : FifoGeneric × Ptr). some (r.0, element r.1)) r, holds)

  pop-Refines :
      (s : FifoGeneric) (us xs qs : List ℕ)
      → Holds items s us xs qs
      → Refines pop s (record { unused = us; allocated = xs; fifo = qs })
  unfolding step on_lists FifoChannel.pop
  pop-Refines s us xs [] h = (s, ground (arith, h.fifo, h.no_readers), h)
  pop-Refines s us xs (x ∷ qs) h =
      let (s', r, holds) = pop-cons items s x us xs qs h in
      (s', ap (λ (r : FifoGeneric × Ptr). some (r.0, element r.1)) r, holds)

  push-Refines :
      (d : ℕ) (s : FifoGeneric) (us xs qs : List ℕ)
      → Holds items s us xs qs
      → Refines (push d) s (record { unused = us; allocated = xs; fifo = qs })
  unfolding step on_lists
  push-Refines d s us xs qs h = elim (Bool-cases (has d xs)) [
    | inl m ↦
        let (s', r, holds, _) = push-snoc items d s us xs qs h m in (s', rw (r, m) refl, rw m holds)
    | inr out ↦
        let (r, _) = push-absent items d 1 s us xs qs h out in (s, rw (r, out) refl, rw out h)
  ]

  release-Refines :
      (d : ℕ) (s : FifoGeneric) (us xs qs : List ℕ)
      → Holds items s us xs qs
      → Refines (release d) s (record { unused = us; allocated = xs; fifo = qs })
  unfolding step on_lists
  release-Refines d s us xs qs h = elim (Bool-cases (has d xs)) [
    | inl m ↦
        let (s', r, holds) = release-cons items d s us xs qs h m in (s', rw (r, m) refl, rw m holds)
    | inr out ↦
        let (_, r) = push-absent items d 1 s us xs qs h out in (s, rw (r, out) refl, rw out h)
  ]

  step-Refines : (c : Call) (s : FifoGeneric) (l : Lists) → HoldsLists items s l → Refines c s l
  step-Refines allocate s l h = allocate-Refines s l.unused l.allocated l.fifo h
  step-Refines pop s l h = pop-Refines s l.unused l.allocated l.fifo h
  step-Refines (push d) s l h = push-Refines d s l.unused l.allocated l.fifo h
  step-Refines (release d) s l h = release-Refines d s l.unused l.allocated l.fifo h

  -- Any calls of `allocate`, `push`, `pop` and `release`, with any data, return, without an access
  -- through a null pointer, and answer as three lists do between which elements only move: `pop`
  -- hands out the elements in the order in which they were pushed. No reader is associated.
  pub run-lists :
      (cs : List Call) (s : FifoGeneric) (l : Lists)
      → HoldsLists items s l
      → (s' : FifoGeneric) × (run cs s ≡ some (s', (run_lists cs l).1))
        × HoldsLists items s' (run_lists cs l).0
  unfolding run run_lists
  run-lists [] s l h = (s, refl, h)
  run-lists (c ∷ cs) s l h =
      let (s', r, holds) = step-Refines c s l h in
      let (s'', q, holds') = run-lists cs s' (on_lists c l).0 holds in (s'', rw (r, q) refl, holds')
