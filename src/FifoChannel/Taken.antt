-- ===== src/FifoChannel/Taken.antt =====
-- The operations of channels/src/fifoGeneric.cpp that search the allocated elements: `push` and
-- `release`.
use tasking_framework.Base.{
  ℕ, zero, suc, ◌≡◌, ◌<◌, refl, ap, sym, true, false, none, some, List, [], ◌∷◌, ◌++◌, arith, Ptr,
  update, length, ◌∈◌, ◌∉◌, has-append, Distinct-length-le, Below-each, mem-split, mem-remove,
  not-mem-remove, remove, remove-append, remove-Distinct, Chain, Chain-cons, Chain-frame, Chain-cut,
  Chain-link, last_ptr, last-cons, last-mem,
}
use mathlib.Core.Path.{subst}
use tasking_framework.FifoChannel.{
  FifoGeneric, search_data, find_previous, take_out, push, release, give_back, set_reads, clear,
}
use tasking_framework.FifoChannel.Lists.{AreApart, Holds, IsFree, unused-AreApart}
use tasking_framework.FifoChannel.Moves.{append-snoc}

search_data-present :
    (fuel : ℕ) (next : ℕ → Ptr) (d q : ℕ) (p : Ptr) (xs ys : List ℕ)
    → Chain next p (xs ++ d ∷ ys)
    → length (xs ++ d ∷ ys) < fuel
    → d ∉ xs
    → search_data fuel next d q p ≡ some (last_ptr (q ∷ xs))
unfolding search_data
search_data-present zero next d q p xs ys c b out = absurd (omega arith)
search_data-present (suc fuel) next d q p [] ys c b out = ground (arith, c.0)
search_data-present (suc fuel) next d q p (x ∷ xs) ys c b out =
    let rest = search_data-present fuel next d x (next x) xs ys c.1 (omega arith) (ground arith) in
    ground (arith, c.0, rest)

search_data-absent :
    (fuel : ℕ) (next : ℕ → Ptr) (d q : ℕ) (p : Ptr) (xs : List ℕ)
    → Chain next p xs
    → length xs < fuel
    → d ∉ xs
    → search_data fuel next d q p ≡ some none
unfolding search_data
search_data-absent zero next d q p xs c b out = absurd (omega arith)
search_data-absent (suc fuel) next d q p [] c b out = rw c refl
search_data-absent (suc fuel) next d q p (x ∷ xs) c b out =
    let rest = search_data-absent fuel next d x (next x) xs c.1 (omega arith) (ground arith) in
    ground (arith, c.0, rest)

module _ (items : ℕ) where
  remove-AreApart :
      {us xs qs : List ℕ} (d : ℕ) → AreApart items us xs qs → AreApart items us (remove d xs) qs
  remove-AreApart {us} {xs} {qs} d a = record {
    unused = a.unused;
    allocated = remove-Distinct d xs a.allocated;
    fifo = a.fifo;
    unused_allocated = λ b m. ground (arith, a.unused_allocated b, mem-remove d b xs);
    unused_fifo = a.unused_fifo;
    allocated_fifo = λ b m. a.allocated_fifo b (mem-remove d b xs m);
    unused_known = a.unused_known;
    allocated_known = λ b m. a.allocated_known b (mem-remove d b xs m);
    fifo_known = a.fifo_known;
  }

  removed-IsFree :
      {us xs qs : List ℕ} (d : ℕ)
      → AreApart items us xs qs
      → d ∈ xs
      → IsFree items d us (remove d xs) qs
  removed-IsFree {us} {xs} {qs} d a m = record {
    unused = ground (arith, a.unused_allocated d);
    allocated = not-mem-remove d xs a.allocated;
    fifo = a.allocated_fifo d m;
    known = a.allocated_known d m;
  }

  -- The three lists with `d` taken out of the allocated ones, where only links have changed.
  record IsTaken (s : FifoGeneric) (next : ℕ → Ptr) (head : Ptr) (us xs qs : List ℕ) : Type 0 where
    unused : Chain next s.unused us
    allocated : Chain next head xs
    fifo : Chain next s.fifo_first qs

  -- `d` is the first allocated element.
  first-IsTaken :
      (d : ℕ) (s : FifoGeneric) (us xs qs : List ℕ)
      → Holds items s us (d ∷ xs) qs
      → IsTaken s s.next (s.next d) us xs qs
  first-IsTaken d s us xs qs h = record {
    unused = h.unused;
    allocated = h.allocated.1;
    fifo = h.fifo;
  }

  -- `l` stands before `d`.
  behind-IsTaken :
      (d l x : ℕ) (s : FifoGeneric) (us xs ys qs : List ℕ)
      → Holds items s us (x ∷ (xs ++ d ∷ ys)) qs
      → last_ptr (x ∷ xs) ≡ some l
      → IsTaken s (update s.next l (s.next d)) s.allocated us (x ∷ (xs ++ ys)) qs
  behind-IsTaken d l x s us xs ys qs h last =
      let mem : l ∈ (x ∷ (xs ++ d ∷ ys)) =
        ground (arith, last-mem x xs last, has-append l (x ∷ xs) (d ∷ ys)) in
      record {
        unused =
            Chain-frame s.next s.unused us l (s.next d) h.unused
              (ground (arith, h.apart.unused_allocated l, mem));
        allocated = Chain-cut s.next s.allocated x xs d l ys h.allocated h.apart.allocated last;
        fifo =
            Chain-frame s.next s.fifo_first qs l (s.next d) h.fifo (h.apart.allocated_fifo l mem);
      }

  taken-Holds :
      {s : FifoGeneric} {next : ℕ → Ptr} {head : Ptr} {us xs zs qs : List ℕ} (d : ℕ)
      → Holds items s us xs qs
      → IsTaken s next head us zs qs
      → remove d xs ≡ zs
      → Holds items (record s { next = next; allocated = head }) us zs qs
  taken-Holds {s} {next} {head} {us} {xs} {zs} {qs} d h t e = record {
    unused = t.unused;
    allocated = t.allocated;
    fifo = t.fifo;
    last = h.last;
    apart = subst (λ l. AreApart items us l qs) e (remove-AreApart d h.apart);
    reads = λ b m. h.reads b (mem-remove d b xs (subst (λ l. b ∈ l) (sym e) m));
    fifo_reads = h.fifo_reads;
    no_readers = h.no_readers;
    one_reader = h.one_reader;
  }

  -- What `push` and `release` find for an allocated element: the links without it.
  record IsFound (d : ℕ) (s : FifoGeneric) (us xs qs : List ℕ) : Type 0 where
    next : ℕ → Ptr
    head : Ptr
    taken : IsTaken s next head us (remove d xs) qs
    take : take_out items d s ≡ some (record s { next = next; allocated = head }, some d)
    free :
        release items d 1 s
        ≡ some (give_back d (record (set_reads d 0 s) { next = next; allocated = head }))

  cleared :
      {s : FifoGeneric} {us xs qs : List ℕ} (d : ℕ)
      → Holds items s us xs qs
      → d ∈ xs
      → clear (s.expected_reads d) 1 ≡ 0
  cleared d h m = ap (λ mask. clear mask 1) (h.reads d m)

  first-IsFound :
      (d : ℕ) (s : FifoGeneric) (us ys qs : List ℕ)
      → Holds items s us (d ∷ ys) qs
      → IsFound d s us (d ∷ ys) qs
  unfolding take_out release set_reads
  first-IsFound d s us ys qs h = record {
    next = s.next;
    head = s.next d;
    taken =
        subst (λ l. IsTaken s s.next (s.next d) us l qs) (sym (remove-append d [] ys refl))
          (first-IsTaken d s us ys qs h);
    take = ground (arith, h.allocated.0);
    free = ground (arith, h.allocated.0, cleared d h (ground arith));
  }

  behind-IsFound :
      (d x : ℕ) (s : FifoGeneric) (us xs ys qs : List ℕ)
      → Holds items s us (x ∷ (xs ++ d ∷ ys)) qs
      → d ∉ (x ∷ xs)
      → IsFound d s us (x ∷ (xs ++ d ∷ ys)) qs
  unfolding take_out release find_previous set_reads
  behind-IsFound d x s us xs ys qs h out =
      let whole = x ∷ (xs ++ d ∷ ys) in
      let bound =
        Distinct-length-le items whole h.apart.allocated
          (Below-each items whole h.apart.allocated_known) in
      let (l, last) = last-cons x xs in
      let found =
        search_data-present (suc items) s.next d x (s.next x) xs ys h.allocated.1
          (omega (arith, bound)) (ground arith) in
      let linked : s.next l ≡ some d = Chain-link s.next s.allocated x xs l d ys h.allocated last in
      record {
        next = update s.next l (s.next d);
        head = s.allocated;
        taken =
            subst (λ l'. IsTaken s (update s.next l (s.next d)) s.allocated us l' qs)
              (sym (remove-append d (x ∷ xs) ys out)) (behind-IsTaken d l x s us xs ys qs h last);
        take = ground (arith, h.allocated.0, found, last, linked, out);
        free =
            (let mem : d ∈ whole = ground (arith, has-append d xs (d ∷ ys)) in
              ground (arith, h.allocated.0, found, last, linked, out, cleared d h mem));
      }

  split-IsFound :
      (d : ℕ) (s : FifoGeneric) (us xs ys qs : List ℕ)
      → Holds items s us (xs ++ d ∷ ys) qs
      → d ∉ xs
      → IsFound d s us (xs ++ d ∷ ys) qs
  split-IsFound d s us [] ys qs h out = first-IsFound d s us ys qs h
  split-IsFound d s us (x ∷ xs) ys qs h out = behind-IsFound d x s us xs ys qs h out

  allocated-IsFound :
      (d : ℕ) (s : FifoGeneric) (us xs qs : List ℕ)
      → Holds items s us xs qs
      → d ∈ xs
      → IsFound d s us xs qs
  allocated-IsFound d s us xs qs h m =
      let (ys, zs, e, out) = mem-split d xs m in
      subst (λ l. IsFound d s us l qs) (sym e)
        (split-IsFound d s us ys zs qs (subst (λ l. Holds items s us l qs) e h) out)

  -- Pushing an allocated element returns true, takes it out of the allocated ones and appends it to
  -- the FIFO, and remembers it as the last pushed one.
  pub push-snoc :
      (d : ℕ) (s : FifoGeneric) (us xs qs : List ℕ)
      → Holds items s us xs qs
      → d ∈ xs
      → (s' : FifoGeneric) × (push items d s ≡ some (s', true))
        × Holds items s' us (remove d xs) (qs ++ d ∷ [])
        × (s'.last_pushed ≡ some d)
  unfolding push
  push-snoc d s us xs qs h m =
      let f = allocated-IsFound d s us xs qs h m in
      let taken = taken-Holds d h f.taken refl in
      let (s', r, holds, pushed) =
        append-snoc items (record s { next = f.next; allocated = f.head }) d us (remove d xs) qs
          taken (removed-IsFree d h.apart m) in
      (s', rw f.take (rw r refl), holds, pushed)

  -- Releasing an allocated element for the only reader takes it out of the allocated ones and puts it
  -- in front of the unused ones.
  pub release-cons :
      (d : ℕ) (s : FifoGeneric) (us xs qs : List ℕ)
      → Holds items s us xs qs
      → d ∈ xs
      → (s' : FifoGeneric) × (release items d 1 s ≡ some s')
        × Holds items s' (d ∷ us) (remove d xs) qs
  unfolding give_back set_reads
  release-cons d s us xs qs h m =
      let f = allocated-IsFound d s us xs qs h m in
      let free = removed-IsFree d h.apart m in
      let t = f.taken in
      (
        give_back d (record (set_reads d 0 s) { next = f.next; allocated = f.head }),
        f.free,
        record {
          unused = Chain-cons f.next s.unused d us t.unused free.unused;
          allocated = Chain-frame f.next f.head (remove d xs) d s.unused t.allocated free.allocated;
          fifo = Chain-frame f.next s.fifo_first qs d s.unused t.fifo free.fifo;
          last = h.last;
          apart = unused-AreApart items (remove-AreApart d h.apart) free;
          reads = λ b k. ground (arith, free.allocated, h.reads b, mem-remove d b xs);
          fifo_reads = λ b k. ground (arith, free.fifo, h.fifo_reads b);
          no_readers = h.no_readers;
          one_reader = h.one_reader;
        },
      )

  -- Pushing or releasing data that is not allocated changes nothing; `push` returns false.
  pub push-absent :
      (d reader : ℕ) (s : FifoGeneric) (us xs qs : List ℕ)
      → Holds items s us xs qs
      → d ∉ xs
      → (push items d s ≡ some (s, false)) × (release items d reader s ≡ some s)
  unfolding push take_out release find_previous
  push-absent d reader s us [] qs h out = (ground (arith, h.allocated), ground (arith, h.allocated))
  push-absent d reader s us (x ∷ xs) qs h out =
      let bound =
        Distinct-length-le items (x ∷ xs) h.apart.allocated
          (Below-each items (x ∷ xs) h.apart.allocated_known) in
      let found =
        search_data-absent (suc items) s.next d x (s.next x) xs h.allocated.1 (omega (arith, bound))
          (ground arith) in
      (ground (arith, h.allocated.0, found, out), ground (arith, h.allocated.0, found, out))
