-- ===== src/FifoChannel/Reader.antt =====
-- `FifoGenericReader` of channels/src/fifoGeneric.cpp. The links in which a reader keeps what it has
-- popped have numbers, and whether it points to its FIFO is a Boolean value. The loops run on fuel, one
-- round for each link and one more.
use tasking_framework.Base.{
  ℕ, zero, suc, ◌+◌, ◌-◌, Bool, false, Option, none, some, Ptr, is_null, same_ptr, update, ◌==◌,
  if◌then◌else◌, ◌>>=◌,
}
use tasking_framework.FifoChannel.{FifoGeneric, release_element}

pub record Reader : Type 0 where
  pub next_reader : Ptr
  pub reader_id : ℕ
  pub reader_task : ℕ
  pub is_associated : Bool
  pub fifo_first : Ptr
  pub fifo_last : Ptr
  pub allocated_elements : Ptr
  pub unused_links : Ptr
  pub link_element : ℕ → Ptr
  pub link_next : ℕ → Ptr

-- The loop of the constructor over the pool of links, with the number of rounds that are left.
unfoldable pub chain_links : ℕ → ℕ → (ℕ → Ptr) → ℕ → Ptr
chain_links zero i next = update next i none
chain_links (suc left) i next = chain_links left (i + 1) (update next i (some (i + 1)))

-- `FifoGenericReader::FifoGenericReader`, with what stands in the links before.
unfoldable pub init_reader : ℕ → ℕ → (ℕ → Ptr) → (ℕ → Ptr) → Reader
init_reader links task elements next = record {
  next_reader = none;
  reader_id = 0;
  reader_task = task;
  is_associated = false;
  fifo_first = none;
  fifo_last = none;
  allocated_elements = none;
  unused_links = some 0;
  link_element = elements;
  link_next = chain_links (links - 1) 0 next;
}

-- `FifoGenericReader::isEmpty`.
unfoldable pub reader_is_empty : Reader → Bool
reader_is_empty reader = is_null reader.fifo_first

-- The first element that the reader has not read goes to the link `l`.
take_link : ℕ → ℕ → FifoGeneric → Reader → Option Reader
take_link l x s reader =
    let taken = record reader {
      unused_links = reader.link_next l;
      link_element = update reader.link_element l (some x);
      link_next = update reader.link_next l reader.allocated_elements;
      allocated_elements = some l;
    } in
    if same_ptr (some x) reader.fifo_last
    then some (record taken { fifo_first = none; fifo_last = none })
    else (do n ← s.next x; some (record taken { fifo_first = some n }))

pop_link : Ptr → ℕ → FifoGeneric → Reader → Option (Reader × Ptr)
pop_link none x s reader = some (reader, none)
pop_link (some l) x s reader = do reader' ← take_link l x s reader; some (reader', some x)

pop_element : Ptr → FifoGeneric → Reader → Option (Reader × Ptr)
pop_element none s reader = some (reader, none)
pop_element (some x) s reader = pop_link reader.unused_links x s reader

-- `FifoGenericReader::pop`.
unfoldable pub reader_pop : FifoGeneric → Reader → Option (Reader × Ptr)
unfolding pop_element pop_link take_link
reader_pop s reader =
    if reader.is_associated then pop_element reader.fifo_first s reader else some (reader, none)

module _ (items links : ℕ) where
  -- `releaseElement` on the element of a link.
  unfoldable pub release_link : ℕ → ℕ → FifoGeneric → Reader → Option FifoGeneric
  release_link l id s reader = do x ← reader.link_element l; release_element items x id s

  -- The first of the links that the reader has popped becomes unused.
  unfoldable pub free_first_link : ℕ → Reader → Reader
  free_first_link l reader = record reader {
    link_next = update reader.link_next l reader.unused_links;
    unused_links = some l;
    allocated_elements = reader.link_next l;
  }

  -- The search loop of `FifoGenericReader::release`: the link before the one of the data.
  unfoldable pub search_link : ℕ → Reader → ℕ → ℕ → Ptr → Option Ptr
  search_link zero reader d previous following = none
  search_link (suc fuel) reader d previous none = some none
  search_link (suc fuel) reader d previous (some n) =
      let rest = search_link fuel reader d n (reader.link_next n) in
      do x ← reader.link_element n; if x == d then some (some previous) else rest

  release_behind : Ptr → FifoGeneric → Reader → Option (FifoGeneric × Reader)
  release_behind none s reader = some (s, reader)
  release_behind (some previous) s reader = do
    l ← reader.link_next previous
    s' ← release_link l reader.reader_id s reader
    some (
      s',
      record reader {
        link_next =
            update (update reader.link_next l reader.unused_links) previous (reader.link_next l);
        unused_links = some l;
      },
    )

  release_from_link : Ptr → ℕ → FifoGeneric → Reader → Option (FifoGeneric × Reader)
  release_from_link none d s reader = some (s, reader)
  release_from_link (some l) d s reader = do
    x ← reader.link_element l
    if x == d
        then (do s' ← release_link l reader.reader_id s reader; some (s', free_first_link l reader))
        else (do
          p ← search_link (suc links) reader d l (reader.link_next l)
          release_behind p s reader)

  -- `FifoGenericReader::release`.
  unfoldable pub reader_release : ℕ → FifoGeneric → Reader → Option (FifoGeneric × Reader)
  unfolding release_from_link release_behind
  reader_release d s reader =
      if reader.is_associated
      then release_from_link reader.allocated_elements d s reader
      else some (s, reader)

  -- The loop of `releaseAll`.
  unfoldable pub release_links : ℕ → Ptr → FifoGeneric → Reader → Option (FifoGeneric × Reader)
  release_links zero p s reader = none
  release_links (suc fuel) none s reader = some (s, reader)
  release_links (suc fuel) (some l) s reader =
      if reader.is_associated
      then (do
        s' ← release_link l reader.reader_id s reader
        release_links fuel (reader.link_next l) s' (free_first_link l reader))
      else none

  -- `FifoGenericReader::releaseAll`.
  unfoldable pub release_all : FifoGeneric → Reader → Option (FifoGeneric × Reader)
  release_all s reader = release_links (suc links) reader.allocated_elements s reader
