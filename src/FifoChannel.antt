-- ===== src/FifoChannel.antt =====
-- channels/src/fifoGeneric.cpp: the FIFO channel on its three linked lists of elements, the unused
-- ones, the allocated ones and those in the FIFO. Elements have numbers, and the pointer to the data of
-- an element, which the constructor makes a different one for each, is the element's number. The list
-- of readers is a pointer to the first one, which is null while no reader is associated. The
-- loops run on fuel, one round for each element and one more. Without fuel, through a null pointer and
-- where an assertion fails, an operation yields `none`.

pub mod Lists
pub mod Moves
pub mod Taken
pub mod Run
pub mod Conserved
pub mod Reader
pub mod Readers
pub mod Lost
pub mod Reading
use Prim.Native.Nat.{bit_and, bit_xor}
use tasking_framework.Base.{
  ℕ, zero, suc, ◌-◌, ◌^◌, Bool, true, false, Option, none, some, Ptr, is_null, same_ptr, update,
  ◌==◌, if◌then◌else◌, ◌>>=◌,
}

pub record FifoGeneric : Type 0 where
  pub next : ℕ → Ptr
  pub expected_reads : ℕ → ℕ
  pub unused : Ptr
  pub allocated : Ptr
  pub fifo_first : Ptr
  pub fifo_last : Ptr
  pub last_pushed : Ptr
  pub readers : Ptr
  pub reader_mask : ℕ

-- The loop of the constructor, with the elements that are left.
unfoldable pub chain_up : ℕ → (ℕ → Ptr) → Ptr → (ℕ → Ptr) × Ptr
chain_up zero next unused = (next, unused)
chain_up (suc left) next unused =
    let (next', unused') = chain_up left next unused in (update next' left unused', some left)

-- `FifoGeneric::FifoGeneric`; what stands in the elements before is a parameter.
unfoldable pub init : ℕ → (ℕ → Ptr) → (ℕ → ℕ) → FifoGeneric
init items next reads =
    let (next', unused) = chain_up items next none in
    record {
      next = next';
      expected_reads = reads;
      unused = unused;
      allocated = none;
      fifo_first = none;
      fifo_last = none;
      last_pushed = none;
      readers = none;
      reader_mask = 1;
    }

-- `mask & ~bits` on 32-bit unsigned numbers.
abbrev pub clear : ℕ → ℕ → ℕ
clear mask bits = bit_and mask (bit_xor bits (2 ^ 32 - 1))

allocate_from : FifoGeneric → Ptr → FifoGeneric × Ptr
allocate_from s none = (s, none)
allocate_from s (some x) = (
  record s {
    unused = s.next x;
    next = update s.next x s.allocated;
    expected_reads = update s.expected_reads x 1;
    allocated = some x;
  },
  some x,
)

-- `allocate`.
unfoldable pub allocate : FifoGeneric → FifoGeneric × Ptr
unfolding allocate_from
allocate s = allocate_from s s.unused

-- The loop of `findPrevious`, with the element that follows.
unfoldable pub search_data : ℕ → (ℕ → Ptr) → ℕ → ℕ → Ptr → Option Ptr
search_data zero next d previous following = none
search_data (suc fuel) next d previous none = some none
search_data (suc fuel) next d previous (some n) =
    let rest = search_data fuel next d n (next n) in if n == d then some (some previous) else rest

-- The loop of `releaseElement`: the element in the FIFO before `x`.
unfoldable pub search_element : ℕ → (ℕ → Ptr) → ℕ → Ptr → Option Ptr
search_element zero next x p = none
search_element (suc fuel) next x none = some none
search_element (suc fuel) next x (some previous) =
    let rest = search_element fuel next x (next previous) in
    if same_ptr (next previous) (some x) then some (some previous) else rest

-- `isEmpty`.
unfoldable pub is_empty : FifoGeneric → Bool
is_empty s = is_null s.fifo_first

-- `getlastPushed`.
unfoldable pub get_last_pushed : FifoGeneric → Ptr
get_last_pushed s = s.last_pushed

unfoldable pub set_reads : ℕ → ℕ → FifoGeneric → FifoGeneric
set_reads x mask s = record s { expected_reads = update s.expected_reads x mask }

-- An element goes to the unused ones.
unfoldable pub give_back : ℕ → FifoGeneric → FifoGeneric
give_back x s = record s { next = update s.next x s.unused; unused = some x }

-- The head of the allocated elements is released by a reader.
free_head : ℕ → ℕ → FifoGeneric → FifoGeneric
free_head x reader s =
    let mask = clear (s.expected_reads x) reader in
    let s' = set_reads x mask s in
    if mask == 0 then give_back x (record s' { allocated = s.next x }) else s'

-- The element behind `previous` is released by a reader.
free_behind : ℕ → Ptr → FifoGeneric → Option FifoGeneric
free_behind reader none s = some s
free_behind reader (some previous) s = do
  x ← s.next previous
  let mask = clear (s.expected_reads x) reader
  let s' = set_reads x mask s
  some (
      if mask == 0
      then give_back x (record s' { next = update s.next previous (s.next x) })
      else s')

take_behind : Ptr → FifoGeneric → Option (FifoGeneric × Ptr)
take_behind none s = some (s, none)
take_behind (some previous) s = do
  x ← s.next previous
  some (record s { next = update s.next previous (s.next x) }, some x)

link_last : ℕ → FifoGeneric → Option FifoGeneric
link_last x s =
    if is_empty s
    then some (record s { fifo_first = some x })
    else (do l ← s.fifo_last; some (record s { next = update s.next l (some x) }))

-- The second part of `push` appends the element to the FIFO.
unfoldable pub append : ℕ → FifoGeneric → Option FifoGeneric
unfolding link_last is_empty
append x s = do
  s' ← link_last x (set_reads x s.reader_mask s)
  some (record s' { fifo_last = some x; next = update s'.next x none; last_pushed = some x })

push_taken : FifoGeneric → Ptr → Option (FifoGeneric × Bool)
push_taken s none = some (s, false)
push_taken s (some x) = do s' ← append x s; some (s', true)

module _ (items : ℕ) where
  -- `findPrevious`, for a list of allocated elements that is not empty.
  unfoldable pub find_previous : ℕ → ℕ → FifoGeneric → Option Ptr
  find_previous d h s = if h == d then some none else search_data (suc items) s.next d h (s.next h)

  release_from : ℕ → ℕ → FifoGeneric → Ptr → Option FifoGeneric
  release_from d reader s none = some s
  release_from d reader s (some h) =
      if h == d
      then some (free_head h reader s)
      else (do p ← find_previous d h s; free_behind reader p s)

  -- `release`.
  unfoldable pub release : ℕ → ℕ → FifoGeneric → Option FifoGeneric
  unfolding release_from free_head free_behind
  release d reader s = release_from d reader s s.allocated

  take_from : ℕ → FifoGeneric → Ptr → Option (FifoGeneric × Ptr)
  take_from d s none = some (s, none)
  take_from d s (some h) =
      if h == d
      then some (record s { allocated = s.next h }, some h)
      else (do p ← find_previous d h s; take_behind p s)

  -- The first part of `push` takes the element out of the allocated ones.
  unfoldable pub take_out : ℕ → FifoGeneric → Option (FifoGeneric × Ptr)
  unfolding take_from take_behind
  take_out d s = take_from d s s.allocated

  -- `push`.
  unfoldable pub push : ℕ → FifoGeneric → Option (FifoGeneric × Bool)
  unfolding push_taken
  push d s = do (s', x) ← take_out d s; push_taken s' x

pop_from : FifoGeneric → Ptr → FifoGeneric × Ptr
pop_from s none = (s, none)
pop_from s (some x) = (
  record s {
    fifo_first = s.next x;
    fifo_last = if is_null (s.next x) then none else s.fifo_last;
    next = update s.next x s.allocated;
    allocated = some x;
  },
  some x,
)

-- `pop`.
unfoldable pub pop : FifoGeneric → FifoGeneric × Ptr
unfolding pop_from
pop s = if is_null s.readers then pop_from s s.fifo_first else (s, none)

module _ (items : ℕ) where
  unlink_first : ℕ → FifoGeneric → FifoGeneric
  unlink_first x s = give_back x (record s {
    fifo_first = s.next x;
    fifo_last = if same_ptr s.fifo_last (some x) then none else s.fifo_last;
  })

  unlink_inside : ℕ → FifoGeneric → Option FifoGeneric
  unlink_inside x s = do
    found ← search_element (suc items) s.next x s.fifo_first
    previous ← found
    some (
        give_back x (record s {
          next = update s.next previous (s.next x);
          fifo_last = if same_ptr (some x) s.fifo_last then some previous else s.fifo_last;
        }))

  release_read : ℕ → FifoGeneric → Option FifoGeneric
  release_read x s =
      if same_ptr (some x) s.fifo_first then some (unlink_first x s) else unlink_inside x s

  -- `releaseElement`, for a link that is not null.
  unfoldable pub release_element : ℕ → ℕ → FifoGeneric → Option FifoGeneric
  unfolding release_read unlink_first unlink_inside
  release_element x reader s =
      let mask = clear (s.expected_reads x) reader in
      let s' = set_reads x mask s in
      if is_empty s then none else if mask == 0 then release_read x s' else some s'
