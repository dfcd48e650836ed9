-- ===== src/Tests/Channels.antt =====
-- A FIFO channel of three elements, a double buffer and their theorems.
use tasking_framework.Base.{
  refl, Option, ◌+◌, ◌==◌, if◌then◌else◌, ℕ, ◌≡◌, true, false, none, some, List, [], ◌∷◌,
}
use tasking_framework.FifoChannel.{FifoGeneric, init}
use tasking_framework.FifoChannel
use tasking_framework.FifoChannel.Reader.{Reader, release_all, release_links}
use tasking_framework.FifoChannel.Readers.{Shared, release_reader, release_unread, unlink_reader}
use tasking_framework.FifoChannel.Lost.{push-release_reader}
use tasking_framework.FifoChannel.Reading.{IsReading, pops, read_list, pops-read_list}
use tasking_framework.FifoChannel.Run.{
  Call, Answer, Lists, run_lists, on_lists, HoldsLists, run, run-lists, allocate, pop, push,
  release, element, pushed, released,
}
use tasking_framework.FifoChannel.Conserved.{start, init-Holds, run-size, size}
use tasking_framework.Buffers.{DoubleBuffer, init_buffer}

abbrev channel : FifoGeneric
channel = init 3 (λ a. some 7) (λ a. 9)

-- Two elements are pushed in the other order than they were allocated.
abbrev calls : List Call
calls = allocate ∷ allocate ∷ push 1 ∷ push 2 ∷ pop ∷ release 1 ∷ pop ∷ pop ∷ push 0 ∷ []

run-lists_example :
    (s : FifoGeneric) × (run 3 calls channel
      ≡ some (
        s,
        element (some 2)
            ∷ element (some 1)
            ∷ pushed true
            ∷ pushed true
            ∷ element (some 1)
            ∷ released
            ∷ element (some 2)
            ∷ element none
            ∷ pushed false
            ∷ [],
      ))
    × HoldsLists 3 s (record { unused = 1 ∷ 0 ∷ []; allocated = 2 ∷ []; fifo = [] })
unfolding run_lists on_lists
run-lists_example = run-lists 3 calls channel (start 3) (init-Holds 3 (λ a. some 7) (λ a. 9))

run-size_example :
    (s : FifoGeneric) × (l : Lists) × (answers : List Answer) × (run 3 calls channel
      ≡ some (s, answers))
    × HoldsLists 3 s l
    × (size l ≡ 3)
run-size_example = run-size 3 (λ a. some 7) (λ a. 9) calls

abbrev buffer : DoubleBuffer ℕ
buffer = init_buffer 5

-- A pointer to the back buffer, which holds 8.
abbrev filled : DoubleBuffer ℕ
filled = record buffer { data_at = λ index. 8 }

-- A FIFO of the elements 0 and 1, which two readers have not read, and the allocated element 2.
abbrev shared_fifo : FifoGeneric
shared_fifo = record {
  next = λ x. if x == 0 then some 1 else none;
  expected_reads = λ x. 3;
  unused = none;
  allocated = some 2;
  fifo_first = some 0;
  fifo_last = some 1;
  last_pushed = some 1;
  readers = some 1;
  reader_mask = 3;
}

-- The readers 0 and 1 with three links each.
abbrev reader : ℕ → Reader
reader r = record {
  next_reader = if r == 1 then some 0 else none;
  reader_id = if r == 1 then 2 else 1;
  reader_task = r;
  is_associated = true;
  fifo_first = some 0;
  fifo_last = some 1;
  allocated_elements = none;
  unused_links = some 0;
  link_element = λ l. none;
  link_next = λ l. if l == 2 then none else some (l + 1);
}

abbrev shared : Shared
shared = record { fifo = shared_fifo; readers = reader }

abbrev value_or : Shared → Option Shared → Shared
value_or c none = c
value_or c (some d) = d

abbrev released_one : Shared
released_one = value_or shared (release_reader 3 3 2 1 shared)

push-release_reader_example : FifoChannel.push 3 2 released_one.fifo ≡ none
unfolding release_reader release_all release_links release_unread FifoChannel.release_element
    FifoChannel.is_empty FifoChannel.set_reads unlink_reader
push-release_reader_example = push-release_reader 3 3 2 1 2 0 shared released_one refl refl refl

reader-IsReading : IsReading shared_fifo (reader 0) (0 ∷ 1 ∷ []) [] [] (0 ∷ 1 ∷ 2 ∷ [])
reader-IsReading = record {
  associated = refl;
  unread = (refl, refl, (refl, refl));
  links = refl;
  elements = tt;
  unused = (refl, (refl, (refl, refl)));
  once = (refl, (refl, (refl, tt)));
  apart = λ l m. refl;
}

pops-read_list_example :
    (r : Reader) × (pops 3 shared_fifo (reader 0) ≡ some (r, some 0 ∷ some 1 ∷ none ∷ []))
    × IsReading shared_fifo r [] (1 ∷ 0 ∷ []) (1 ∷ 0 ∷ []) (2 ∷ [])
unfolding read_list
pops-read_list_example =
    pops-read_list 3 shared_fifo (reader 0) (0 ∷ 1 ∷ []) [] [] (0 ∷ 1 ∷ 2 ∷ []) reader-IsReading
