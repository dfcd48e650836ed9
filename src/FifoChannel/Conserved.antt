-- ===== src/FifoChannel/Conserved.antt =====
-- No element of the FIFO channel of channels/src/fifoGeneric.cpp is lost, from the constructor on.
use tasking_framework.Base.{
  ℕ, zero, suc, ◌+◌, ◌≡◌, ◌<◌, refl, ap, ◌∙◌, none, some, List, [], ◌∷◌, arith, Ptr, length,
  length-append, ◌∈◌, remove, Chain, Chain-cons, Distinct,
}
use tasking_framework.FifoChannel.{FifoGeneric, init, chain_up}
use tasking_framework.FifoChannel.Run.{
  Call, Answer, Lists, on_lists, run_lists, HoldsLists, run, run-lists, allocate, pop, push,
  release,
}

-- The elements from the last one down to the first.
abbrev pub down : ℕ → List ℕ
down zero = []
down (suc n) = n ∷ down n

down-lt : (n a : ℕ) → a ∈ down n → a < n
down-lt zero a m = absurd (cc)
down-lt (suc n) a m = ground (arith, down-lt n a)

down-Distinct : (n : ℕ) → Distinct (down n)
down-Distinct zero = tt
down-Distinct (suc n) = (ground (arith, down-lt n n), down-Distinct n)

length-down : (n : ℕ) → length (down n) ≡ n
length-down zero = refl
length-down (suc n) = ap suc (length-down n)

chain_up-Chain :
    (n : ℕ) (next : ℕ → Ptr) → Chain (chain_up n next none).0 (chain_up n next none).1 (down n)
unfolding chain_up
chain_up-Chain zero next = refl
chain_up-Chain (suc n) next =
    Chain-cons (chain_up n next none).0 (chain_up n next none).1 n (down n) (chain_up-Chain n next)
      (ground (arith, down-lt n n))

abbrev pub start : ℕ → Lists
start items = record { unused = down items; allocated = []; fifo = [] }

pub init-Holds :
    (items : ℕ) (next : ℕ → Ptr) (reads : ℕ → ℕ)
    → HoldsLists items (init items next reads) (start items)
unfolding init
init-Holds items next reads = record {
  unused = chain_up-Chain items next;
  allocated = refl;
  fifo = refl;
  last = refl;
  apart = record {
    unused = down-Distinct items;
    allocated = tt;
    fifo = tt;
    unused_allocated = λ a m. refl;
    unused_fifo = λ a m. refl;
    allocated_fifo = λ a m. refl;
    unused_known = λ a m. down-lt items a m;
    allocated_known = λ a m. absurd (cc);
    fifo_known = λ a m. absurd (cc);
  };
  reads = λ a m. absurd (cc);
  fifo_reads = λ a m. absurd (cc);
  no_readers = refl;
  one_reader = refl;
}

-- How many elements the lists hold.
abbrev pub size : Lists → ℕ
size l = length l.unused + length l.allocated + length l.fifo

length-remove_mem : (d : ℕ) (xs : List ℕ) → d ∈ xs → suc (length (remove d xs)) ≡ length xs
length-remove_mem d [] m = absurd (cc)
length-remove_mem d (x ∷ xs) m = ground (arith, length-remove_mem d xs)

size-on_lists :
    (c : Call) (us xs qs : List ℕ)
    → size (on_lists c (record { unused = us; allocated = xs; fifo = qs })).0
      ≡ length us + length xs + length qs
unfolding on_lists
size-on_lists allocate [] xs qs = refl
size-on_lists allocate (x ∷ us) xs qs = omega arith
size-on_lists pop us xs [] = refl
size-on_lists pop us xs (x ∷ qs) = omega arith
size-on_lists (push d) us xs qs = ground (arith, length-remove_mem d xs, length-append qs (d ∷ []))
size-on_lists (release d) us xs qs = ground (arith, length-remove_mem d xs)

size-run_lists : (cs : List Call) (l : Lists) → size (run_lists cs l).0 ≡ size l
unfolding run_lists
size-run_lists [] l = refl
size-run_lists (c ∷ cs) l =
    size-run_lists cs (on_lists c l).0 ∙ size-on_lists c l.unused l.allocated l.fifo

-- After the constructor and any calls, which all return, the three lists together hold as many
-- elements as the channel has, and none twice: no element is lost.
pub run-size :
    (items : ℕ) (next : ℕ → Ptr) (reads : ℕ → ℕ) (cs : List Call)
    → (s : FifoGeneric) × (l : Lists) × (answers : List Answer) × (run items cs
          (init items next reads)
        ≡ some (s, answers))
      × HoldsLists items s l
      × (size l ≡ items)
run-size items next reads cs =
    let (s, r, holds) =
      run-lists items cs (init items next reads) (start items) (init-Holds items next reads) in
    (
      s,
      (run_lists cs (start items)).0,
      (run_lists cs (start items)).1,
      r,
      holds,
      omega (arith, size-run_lists cs (start items), length-down items),
    )
