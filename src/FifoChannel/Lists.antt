-- ===== src/FifoChannel/Lists.antt =====
-- The FIFO channel of channels/src/fifoGeneric.cpp seen as three lists of elements.

use tasking_framework.Base.{
  ℕ, ◌≡◌, ◌<◌, none, List, [], ◌∷◌, ◌++◌, arith, ◌∈◌, ◌∉◌, has-append, Distinct, Distinct-snoc,
  Chain, last_ptr,
}
use tasking_framework.FifoChannel.{FifoGeneric}

-- The lists hold elements of the channel; none is in two of them, or twice in one.
pub record AreApart (items : ℕ) (us xs qs : List ℕ) : Type 0 where
  pub unused : Distinct us
  pub allocated : Distinct xs
  pub fifo : Distinct qs
  pub unused_allocated : (a : ℕ) → a ∈ us → a ∉ xs
  pub unused_fifo : (a : ℕ) → a ∈ us → a ∉ qs
  pub allocated_fifo : (a : ℕ) → a ∈ xs → a ∉ qs
  pub unused_known : (a : ℕ) → a ∈ us → a < items
  pub allocated_known : (a : ℕ) → a ∈ xs → a < items
  pub fifo_known : (a : ℕ) → a ∈ qs → a < items

-- The unused elements, the allocated ones and those in the FIFO, the first one to pop first, while
-- no reader is associated.
pub record Holds (items : ℕ) (s : FifoGeneric) (us xs qs : List ℕ) : Type 0 where
  pub unused : Chain s.next s.unused us
  pub allocated : Chain s.next s.allocated xs
  pub fifo : Chain s.next s.fifo_first qs
  pub last : s.fifo_last ≡ last_ptr qs
  pub apart : AreApart items us xs qs
  pub reads : (a : ℕ) → a ∈ xs → s.expected_reads a ≡ 1
  pub fifo_reads : (a : ℕ) → a ∈ qs → s.expected_reads a ≡ 1
  pub no_readers : s.readers ≡ none
  pub one_reader : s.reader_mask ≡ 1

-- The element is in none of the lists.
pub record IsFree (items x : ℕ) (us xs qs : List ℕ) : Type 0 where
  pub unused : x ∉ us
  pub allocated : x ∉ xs
  pub fifo : x ∉ qs
  pub known : x < items

module _ (items : ℕ) where
  pub unused-AreApart :
      {x : ℕ} {us xs qs : List ℕ}
      → AreApart items us xs qs
      → IsFree items x us xs qs
      → AreApart items (x ∷ us) xs qs
  unused-AreApart {x} {us} {xs} {qs} a f = record {
    unused = (f.unused, a.unused);
    allocated = a.allocated;
    fifo = a.fifo;
    unused_allocated = λ b m. ground (arith, a.unused_allocated b, f.allocated);
    unused_fifo = λ b m. ground (arith, a.unused_fifo b, f.fifo);
    allocated_fifo = a.allocated_fifo;
    unused_known = λ b m. ground (arith, a.unused_known b, f.known);
    allocated_known = a.allocated_known;
    fifo_known = a.fifo_known;
  }

  pub allocated-AreApart :
      {x : ℕ} {us xs qs : List ℕ}
      → AreApart items us xs qs
      → IsFree items x us xs qs
      → AreApart items us (x ∷ xs) qs
  allocated-AreApart {x} {us} {xs} {qs} a f = record {
    unused = a.unused;
    allocated = (f.allocated, a.allocated);
    fifo = a.fifo;
    unused_allocated = λ b m. ground (arith, a.unused_allocated b, f.unused);
    unused_fifo = a.unused_fifo;
    allocated_fifo = λ b m. ground (arith, a.allocated_fifo b, f.fifo);
    unused_known = a.unused_known;
    allocated_known = λ b m. ground (arith, a.allocated_known b, f.known);
    fifo_known = a.fifo_known;
  }

  pub fifo-AreApart :
      {x : ℕ} {us xs qs : List ℕ}
      → AreApart items us xs qs
      → IsFree items x us xs qs
      → AreApart items us xs (qs ++ x ∷ [])
  fifo-AreApart {x} {us} {xs} {qs} a f = record {
    unused = a.unused;
    allocated = a.allocated;
    fifo = Distinct-snoc x qs a.fifo f.fifo;
    unused_allocated = a.unused_allocated;
    unused_fifo = λ b m. ground (arith, a.unused_fifo b, f.unused, has-append b qs (x ∷ []));
    allocated_fifo =
        λ b m. ground (arith, a.allocated_fifo b, f.allocated, has-append b qs (x ∷ []));
    unused_known = a.unused_known;
    allocated_known = a.allocated_known;
    fifo_known = λ b m. ground (arith, a.fifo_known b, f.known, has-append b qs (x ∷ []));
  }

  -- Without its first unused element, or its first one in the FIFO, the lists are apart, and that
  -- element is free.
  pub unused-IsFree :
      {x : ℕ} {us xs qs : List ℕ}
      → AreApart items (x ∷ us) xs qs
      → AreApart items us xs qs × IsFree items x us xs qs
  unused-IsFree {x} {us} {xs} {qs} a = (
    record {
      unused = a.unused.1;
      allocated = a.allocated;
      fifo = a.fifo;
      unused_allocated = λ b m. a.unused_allocated b (ground arith);
      unused_fifo = λ b m. a.unused_fifo b (ground arith);
      allocated_fifo = a.allocated_fifo;
      unused_known = λ b m. a.unused_known b (ground arith);
      allocated_known = a.allocated_known;
      fifo_known = a.fifo_known;
    },
    record {
      unused = a.unused.0;
      allocated = a.unused_allocated x (ground arith);
      fifo = a.unused_fifo x (ground arith);
      known = a.unused_known x (ground arith);
    },
  )

  pub fifo-IsFree :
      {x : ℕ} {us xs qs : List ℕ}
      → AreApart items us xs (x ∷ qs)
      → AreApart items us xs qs × IsFree items x us xs qs
  fifo-IsFree {x} {us} {xs} {qs} a = (
    record {
      unused = a.unused;
      allocated = a.allocated;
      fifo = a.fifo.1;
      unused_allocated = a.unused_allocated;
      unused_fifo = λ b m. ground (arith, a.unused_fifo b);
      allocated_fifo = λ b m. ground (arith, a.allocated_fifo b);
      unused_known = a.unused_known;
      allocated_known = a.allocated_known;
      fifo_known = λ b m. a.fifo_known b (ground arith);
    },
    record {
      unused = ground (arith, a.unused_fifo x);
      allocated = ground (arith, a.allocated_fifo x);
      fifo = a.fifo.0;
      known = a.fifo_known x (ground arith);
    },
  )
