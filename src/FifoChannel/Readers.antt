-- ===== src/FifoChannel/Readers.antt =====
-- The methods of `FifoGeneric` of channels/src/fifoGeneric.cpp for readers, which have numbers. The
-- loops run on fuel, one round for each element or reader and one more.
use Prim.Native.Nat.{bit_and, bit_or}
use tasking_framework.Base.{
  ℕ, zero, suc, ◌-◌, ◌*◌, ◌/◌, ◌%◌, ◌^◌, Bool, true, false, Option, none, some, Ptr, is_null,
  same_ptr, update, ltb, ◌==◌, if◌then◌else◌, ◌>>=◌,
}
use tasking_framework.FifoChannel.{FifoGeneric, clear, set_reads, release_element}
use tasking_framework.FifoChannel.Reader.{Reader, release_all}

-- A FIFO channel and its readers.
pub record Shared : Type 0 where
  pub fifo : FifoGeneric
  pub readers : ℕ → Reader

abbrev pub set_reader : ℕ → Reader → Shared → Shared
set_reader r reader c = record c { readers = update c.readers r reader }

module _ (items links readers : ℕ) where
  -- Whether the reader is in the list of readers.
  unfoldable pub is_in_list : ℕ → ℕ → Ptr → Shared → Option Bool
  is_in_list zero r p c = none
  is_in_list (suc fuel) r none c = some false
  is_in_list (suc fuel) r (some check) c =
      let rest = is_in_list fuel r (c.readers check).next_reader c in
      if check == r then some true else rest

  -- The loop over the bits of the mask, which has eight bits: the bit before the first that is not set.
  unfoldable pub free_bit : ℕ → ℕ → ℕ → ℕ
  free_bit zero mask id = id
  free_bit (suc fuel) mask id =
      let rest = free_bit fuel (mask / 2) ((id * 2) % 2 ^ 32) in
      if mask / 2 % 2 == 1 then rest else id

  -- The identification of a new reader.
  unfoldable pub new_id : FifoGeneric → ℕ
  new_id s = if is_null s.readers then 1 else (free_bit 8 s.reader_mask 1 * 2) % 2 ^ 32

  -- The loop that makes the elements of the FIFO expect a read of the new reader.
  unfoldable pub expect_reads : ℕ → ℕ → Ptr → FifoGeneric → Option FifoGeneric
  expect_reads zero id p s = none
  expect_reads (suc fuel) id none s = some s
  expect_reads (suc fuel) id (some x) s =
      expect_reads fuel id (s.next x) (set_reads x (bit_or (s.expected_reads x) id) s)

  put_reader : ℕ → Shared → Option Shared
  put_reader r c = do
    let id = new_id c.fifo
    let mask =
        if is_null c.fifo.readers then c.fifo.reader_mask else bit_or c.fifo.reader_mask id % 2 ^ 8
    let s = record c.fifo { readers = some r; reader_mask = mask }
    let reader = record (c.readers r) {
      next_reader = c.fifo.readers;
      reader_id = id;
      is_associated = true;
    }
    s' ← expect_reads (suc items) id s.fifo_first s
    some (set_reader r reader (record c { fifo = s' }))

  -- `FifoGeneric::associateReader`.
  unfoldable pub associate_reader : ℕ → Shared → Option Shared
  unfolding put_reader
  associate_reader r c = do
    found ← is_in_list (suc readers) r c.fifo.readers c
    if found then some c else put_reader r c

  -- The loop of `releaseReader` over the elements that the reader has not read.
  unfoldable pub release_unread : ℕ → ℕ → Ptr → FifoGeneric → Option FifoGeneric
  release_unread zero id p s = none
  release_unread (suc fuel) id none s = some s
  release_unread (suc fuel) id (some x) s = do
    s' ← release_element items x id s
    release_unread fuel id (s.next x) s'

  -- The loop of `releaseReader` over the readers: the one before the reader.
  unfoldable pub search_reader : ℕ → ℕ → Ptr → Shared → Option Ptr
  search_reader zero r p c = none
  search_reader (suc fuel) r none c = some none
  search_reader (suc fuel) r (some current) c =
      let rest = search_reader fuel r (c.readers current).next_reader c in
      if same_ptr (c.readers current).next_reader (some r) then some (some current) else rest

  unfoldable pub unlink_behind : ℕ → Ptr → Shared → Shared
  unlink_behind r none c = c
  unlink_behind r (some current) c =
      let reader = c.readers r in
      set_reader r (record reader { next_reader = none })
        (set_reader current (record (c.readers current) { next_reader = reader.next_reader })
          (record c {
            fifo = record c.fifo { reader_mask = clear c.fifo.reader_mask reader.reader_id };
          }))

  unfoldable pub unlink_head : ℕ → Shared → Shared
  unlink_head r c =
      let following = (c.readers r).next_reader in
      let mask =
        if is_null following then 1 else clear c.fifo.reader_mask (c.readers r).reader_id in
      record c { fifo = record c.fifo { readers = following; reader_mask = mask } }

  -- The reader is taken out of the list of readers.
  unfoldable pub unlink_reader : ℕ → Shared → Option Shared
  unfolding unlink_behind unlink_head
  unlink_reader r c =
      if same_ptr (some r) c.fifo.readers
      then some (unlink_head r c)
      else (do p ← search_reader (suc readers) r c.fifo.readers c; some (unlink_behind r p c))

  -- `FifoGeneric::releaseReader`.
  unfoldable pub release_reader : ℕ → Shared → Option Shared
  release_reader r c = do
    (s, reader) ← release_all items links c.fifo (c.readers r)
    let from = if is_null reader.fifo_first then s.fifo_first else reader.fifo_first
    s' ← release_unread (suc items) reader.reader_id from s
    unlink_reader r (
        set_reader r (record reader { fifo_first = none; is_associated = false })
          (record c { fifo = record s' { fifo_last = none } }))

  -- The loop of `synchronize` to the first element that the reader has not read.
  unfoldable pub first_unread : ℕ → ℕ → ℕ → FifoGeneric → Option ℕ
  first_unread zero id x s = none
  first_unread (suc fuel) id x s =
      let rest = (do n ← s.next x; first_unread fuel id n s) in
      if bit_and (s.expected_reads x) id == 0 then rest else some x

  -- The loop of `synchronize` to the last new element.
  unfoldable pub advance : ℕ → ℕ → FifoGeneric → Option ℕ
  advance zero x s = some x
  advance (suc volume) x s = do n ← s.next x; advance volume n s

  -- The first new element of a reader, where `head` is that of the FIFO.
  new_from : Ptr → ℕ → FifoGeneric → Reader → Option (Reader × ℕ)
  new_from none head s reader = do
    x ← first_unread (suc items) reader.reader_id head s
    some (record reader { fifo_first = some x }, x)
  new_from (some first) head s reader = do l ← reader.fifo_last; n ← s.next l; some (reader, n)

  -- The reader takes over `volume` more elements.
  unfoldable pub take_over : ℕ → FifoGeneric → Reader → Option Reader
  unfolding new_from
  take_over volume s reader = do
    head ← s.fifo_first
    (reader', item) ← new_from reader.fifo_first head s reader
    last ← advance (volume - 1) item s
    some (record reader' { fifo_last = some last })

  -- The reader of a task.
  unfoldable pub reader_of : ℕ → ℕ → Ptr → Shared → Option Ptr
  reader_of zero task p c = none
  reader_of (suc fuel) task none c = some none
  reader_of (suc fuel) task (some r) c =
      let rest = reader_of fuel task (c.readers r).next_reader c in
      if (c.readers r).reader_task == task then some (some r) else rest

  synchronize_at : ℕ → Shared → Ptr → Option Shared
  synchronize_at volume c none = some c
  synchronize_at volume c (some r) = do
    reader ← take_over volume c.fifo (c.readers r)
    some (set_reader r reader c)

  -- `FifoGeneric::synchronize`.
  unfoldable pub synchronize : ℕ → ℕ → Shared → Option Shared
  unfolding synchronize_at
  synchronize task volume c =
      if ltb 0 volume
      then (do r ← reader_of (suc readers) task c.fifo.readers c; synchronize_at volume c r)
      else some c
