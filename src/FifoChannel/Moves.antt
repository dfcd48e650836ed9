-- ===== src/FifoChannel/Moves.antt =====
-- The operations of channels/src/fifoGeneric.cpp that move the first element of a list.
use tasking_framework.Base.{
  ℕ, ◌≡◌, refl, none, some, List, [], ◌∷◌, ◌++◌, arith, Ptr, is_null, update, if◌then◌else◌,
  has-append, last-cons, ◌∉◌, Chain, Chain-cons, Chain-frame, Chain-extend, last_ptr, last-snoc,
  last-mem, sym,
}
use tasking_framework.FifoChannel.{FifoGeneric, allocate, pop, append, set_reads}
use tasking_framework.FifoChannel.Lists.{
  Holds, IsFree, allocated-AreApart, fifo-AreApart, unused-IsFree, fifo-IsFree,
}

module _ (items : ℕ) where
  -- If there is an unused element, `allocate` takes the first one, expects one read of it, and puts it in
  -- front of the allocated ones; the other lists stay.
  pub allocate-cons :
      (s : FifoGeneric) (x : ℕ) (us xs qs : List ℕ)
      → Holds items s (x ∷ us) xs qs
      → (s' : FifoGeneric) × (allocate s ≡ (s', some x)) × Holds items s' us (x ∷ xs) qs
  unfolding allocate
  allocate-cons s x us xs qs h =
      let (a, f) = unused-IsFree items h.apart in
      (
        record s {
          unused = s.next x;
          next = update s.next x s.allocated;
          expected_reads = update s.expected_reads x 1;
          allocated = some x;
        },
        ground (arith, h.unused.0),
        record {
          unused = Chain-frame s.next (s.next x) us x s.allocated h.unused.1 f.unused;
          allocated = Chain-cons s.next s.allocated x xs h.allocated f.allocated;
          fifo = Chain-frame s.next s.fifo_first qs x s.allocated h.fifo f.fifo;
          last = h.last;
          apart = allocated-AreApart items a f;
          reads = λ b m. ground (arith, h.reads b);
          fifo_reads = λ b m. ground (arith, h.fifo_reads b, f.fifo);
          no_readers = h.no_readers;
          one_reader = h.one_reader;
        },
      )

  -- If the FIFO is not empty and has no reader, `pop` takes its first element and puts it in front of
  -- the allocated ones; the other lists stay.
  pub pop-cons :
      (s : FifoGeneric) (x : ℕ) (us xs qs : List ℕ)
      → Holds items s us xs (x ∷ qs)
      → (s' : FifoGeneric) × (pop s ≡ (s', some x)) × Holds items s' us (x ∷ xs) qs
  unfolding pop
  pop-cons s x us xs qs h =
      let (a, f) = fifo-IsFree items h.apart in
      (
        record s {
          fifo_first = s.next x;
          fifo_last = if is_null (s.next x) then none else s.fifo_last;
          next = update s.next x s.allocated;
          allocated = some x;
        },
        ground (arith, h.no_readers, h.fifo.0),
        record {
          unused = Chain-frame s.next s.unused us x s.allocated h.unused f.unused;
          allocated = Chain-cons s.next s.allocated x xs h.allocated f.allocated;
          fifo = Chain-frame s.next (s.next x) qs x s.allocated h.fifo.1 f.fifo;
          last = last_after (s.next x) s.fifo_last x qs h.fifo.1 h.last;
          apart = allocated-AreApart items a f;
          reads = λ b m. ground (arith, h.reads b, h.fifo_reads x);
          fifo_reads = λ b m. h.fifo_reads b (ground arith);
          no_readers = h.no_readers;
          one_reader = h.one_reader;
        },
      )
    where
      last_after :
          (p l : Ptr) (y : ℕ) (ys : List ℕ)
          → Chain s.next p ys
          → l ≡ last_ptr (y ∷ ys)
          → (if is_null p then none else l) ≡ last_ptr ys
      last_after p l y [] c e = rw c refl
      last_after p l y (z ∷ ys) c e = rw c.0 e

  -- A free element goes to the end of the FIFO.
  pub append-snoc :
      (s : FifoGeneric) (x : ℕ) (us xs qs : List ℕ)
      → Holds items s us xs qs
      → IsFree items x us xs qs
      → (s' : FifoGeneric) × (append x s ≡ some s')
        × Holds items s' us xs (qs ++ x ∷ [])
        × (s'.last_pushed ≡ some x)
  unfolding append set_reads
  append-snoc s x us xs [] h f = (
    record s {
      expected_reads = update s.expected_reads x s.reader_mask;
      fifo_first = some x;
      fifo_last = some x;
      next = update s.next x none;
      last_pushed = some x;
    },
    ground (arith, h.fifo),
    record {
      unused = Chain-frame s.next s.unused us x none h.unused f.unused;
      allocated = Chain-frame s.next s.allocated xs x none h.allocated f.allocated;
      fifo = (refl, ground arith);
      last = refl;
      apart = fifo-AreApart items h.apart f;
      reads = λ b m. ground (arith, h.reads b, f.allocated);
      fifo_reads = λ b m. ground (arith, h.one_reader);
      no_readers = h.no_readers;
      one_reader = h.one_reader;
    },
    refl,
  )
  append-snoc s x us xs (y ∷ qs) h f =
      let (l, last) = last-cons y qs in
      (
        record s {
          expected_reads = update s.expected_reads x s.reader_mask;
          fifo_last = some x;
          next = update (update s.next l (some x)) x none;
          last_pushed = some x;
        },
        ground (arith, h.fifo.0, h.last, last),
        record {
          unused =
              framed l s.unused us (ground (arith, last-mem y qs last, h.apart.unused_fifo l))
                h.unused f.unused;
          allocated =
              framed l s.allocated xs (ground (arith, last-mem y qs last, h.apart.allocated_fifo l))
                h.allocated f.allocated;
          fifo = Chain-extend s.next s.fifo_first y qs l x h.fifo h.apart.fifo f.fifo last;
          last = sym (last-snoc y qs x);
          apart = fifo-AreApart items h.apart f;
          reads = λ b m. ground (arith, h.reads b, f.allocated);
          fifo_reads =
              λ b m. ground (arith, h.one_reader, h.fifo_reads b, has-append b (y ∷ qs) (x ∷ []));
          no_readers = h.no_readers;
          one_reader = h.one_reader;
        },
        refl,
      )
    where
      framed :
          (l : ℕ) (p : Ptr) (ys : List ℕ)
          → l ∉ ys
          → Chain s.next p ys
          → x ∉ ys
          → Chain (update (update s.next l (some x)) x none) p ys
      framed l p ys out c out' =
          Chain-frame (update s.next l (some x)) p ys x none
            (Chain-frame s.next p ys l (some x) c out) out'
