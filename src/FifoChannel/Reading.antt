-- ===== src/FifoChannel/Reading.antt =====
-- What a reader of channels/src/fifoGeneric.cpp pops after it has been synchronized.
use tasking_framework.Base.{
  ℕ, zero, suc, ◌≡◌, refl, true, false, Option, none, some, List, [], ◌∷◌, arith, Ptr, same_ptr,
  update, ◌>>=◌, ◌∉◌, ◌∈◌, Distinct, Chain, Chain-frame, Chain-cons,
}
use mathlib.Core.Path.{subst}
use tasking_framework.FifoChannel.{FifoGeneric}
use tasking_framework.FifoChannel.Reader.{Reader, reader_pop}

-- The elements from the first to the last one that a reader knows, within the longer FIFO.
abbrev pub Segment : (ℕ → Ptr) → Ptr → Ptr → List ℕ → Type 0
Segment next first last [] = first ≡ none
Segment next first last (x ∷ []) = (first ≡ some x) × (last ≡ some x)
Segment next first last (x ∷ y ∷ xs) =
    (first ≡ some x) × (same_ptr (some x) last ≡ false) × Segment next (next x) last (y ∷ xs)

-- The elements in the links.
abbrev pub InLinks : (ℕ → Ptr) → List ℕ → List ℕ → Type 0
InLinks element [] [] = Unit {0}
InLinks element [] (a ∷ rest) = ⊥
InLinks element (l ∷ ls) [] = ⊥
InLinks element (l ∷ ls) (a ∷ rest) = (element l ≡ some a) × InLinks element ls rest

-- The reader has not read `xs`, it has popped `popped` and keeps it in the links `used`, and the links
-- `free` are left.
pub record IsReading (s : FifoGeneric) (reader : Reader) (xs popped used free : List ℕ)
    : Type 0 where
  pub associated : reader.is_associated ≡ true
  pub unread : Segment s.next reader.fifo_first reader.fifo_last xs
  pub links : Chain reader.link_next reader.allocated_elements used
  pub elements : InLinks reader.link_element used popped
  pub unused : Chain reader.link_next reader.unused_links free
  pub once : Distinct free
  pub apart : (l : ℕ) → l ∈ free → l ∉ used

InLinks-frame :
    (element : ℕ → Ptr) (used popped : List ℕ) (l : ℕ) (v : Ptr)
    → InLinks element used popped
    → l ∉ used
    → InLinks (update element l v) used popped
InLinks-frame element [] [] l v h out = tt
InLinks-frame element [] (a ∷ rest) l v h out = h
InLinks-frame element (k ∷ ks) [] l v h out = h
InLinks-frame element (k ∷ ks) (a ∷ rest) l v h out =
    (ground (arith, h.0), InLinks-frame element ks rest l v h.1 (ground arith))

-- The reader after a `pop` into the link `l`, with the elements from `first` to `last` unread.
abbrev popped_into : ℕ → ℕ → Ptr → Ptr → Reader → Reader
popped_into l x first last reader = record reader {
  unused_links = reader.link_next l;
  link_element = update reader.link_element l (some x);
  link_next = update reader.link_next l reader.allocated_elements;
  allocated_elements = some l;
  fifo_first = first;
  fifo_last = last;
}

popped-IsReading :
    (s : FifoGeneric) (reader : Reader) (first last : Ptr) (x l : ℕ)
    (xs ys popped used free : List ℕ)
    → IsReading s reader ys popped used (l ∷ free)
    → Segment s.next first last xs
    → IsReading s (popped_into l x first last reader) xs (x ∷ popped) (l ∷ used) free
popped-IsReading s reader first last x l xs ys popped used free h u =
    let out : l ∉ used = h.apart l (ground arith) in
    record {
      associated = h.associated;
      unread = u;
      links = Chain-cons reader.link_next reader.allocated_elements l used h.links out;
      elements =
          (ground arith, InLinks-frame reader.link_element used popped l (some x) h.elements out);
      unused =
          Chain-frame reader.link_next (reader.link_next l) free l reader.allocated_elements
            h.unused.1 h.once.0;
      once = h.once.1;
      apart = λ k m. ground (arith, h.apart k, h.once.0);
    }

Segment-head :
    (next : ℕ → Ptr) (p last : Ptr) (y : ℕ) (xs : List ℕ)
    → Segment next p last (y ∷ xs)
    → p ≡ some y
Segment-head next p last y [] h = h.0
Segment-head next p last y (z ∷ xs) h = h.0

-- `pop` hands out the first element that the reader has not read, and puts it into a link.
reader_pop-IsReading :
    (s : FifoGeneric) (reader : Reader) (x l : ℕ) (xs popped used free : List ℕ)
    → IsReading s reader (x ∷ xs) popped used (l ∷ free)
    → (reader' : Reader) × (reader_pop s reader ≡ some (reader', some x))
      × IsReading s reader' xs (x ∷ popped) (l ∷ used) free
unfolding reader_pop
reader_pop-IsReading s reader x l [] popped used free h = (
  popped_into l x none none reader,
  ground (arith, h.associated, h.unread.0, h.unread.1, h.unused.0),
  popped-IsReading s reader none none x l [] (x ∷ []) popped used free h refl,
)
reader_pop-IsReading s reader x l (y ∷ xs) popped used free h =
    let first : s.next x ≡ some y =
      Segment-head s.next (s.next x) reader.fifo_last y xs h.unread.2 in
    (
      popped_into l x (some y) reader.fifo_last reader,
      ground (arith, h.associated, h.unread.0, h.unread.1, h.unused.0, first),
      popped-IsReading s reader (some y) reader.fifo_last x l (y ∷ xs) (x ∷ y ∷ xs) popped used free
          h (subst (λ p. Segment s.next p reader.fifo_last (y ∷ xs)) first h.unread.2),
    )

-- Without unread elements `pop` hands out nothing, and without free links neither.
reader_pop-nothing :
    (s : FifoGeneric) (reader : Reader) (popped used free : List ℕ)
    → IsReading s reader [] popped used free
    → reader_pop s reader ≡ some (reader, none)
unfolding reader_pop
reader_pop-nothing s reader popped used free h = ground (arith, h.associated, h.unread)

reader_pop-no_link :
    (s : FifoGeneric) (reader : Reader) (x : ℕ) (xs popped used : List ℕ)
    → IsReading s reader (x ∷ xs) popped used []
    → reader_pop s reader ≡ some (reader, none)
unfolding reader_pop
reader_pop-no_link s reader x xs popped used h = ground (
  arith,
  h.associated,
  h.unused,
  Segment-head s.next reader.fifo_first reader.fifo_last x xs h.unread,
)

-- As many calls of `pop` as there are.
unfoldable pub pops : ℕ → FifoGeneric → Reader → Option (Reader × List Ptr)
pops zero s reader = some (reader, [])
pops (suc n) s reader = do
  (reader', p) ← reader_pop s reader
  (reader'', ps) ← pops n s reader'
  some (reader'', p ∷ ps)

-- The elements that are not read, those that are popped, the links that hold them and the free ones.
pub record Read : Type 0 where
  pub unread : List ℕ
  pub popped : List ℕ
  pub used : List ℕ
  pub free : List ℕ

-- A list of unread elements, as long as there are links.
unfoldable pub read_list : ℕ → List ℕ → List ℕ → List ℕ → List ℕ → Read × List Ptr
read_list zero xs popped used free =
    (record { unread = xs; popped = popped; used = used; free = free }, [])
read_list (suc n) [] popped used free =
    let (r, ps) = read_list n [] popped used free in (r, none ∷ ps)
read_list (suc n) (x ∷ xs) popped used [] =
    let (r, ps) = read_list n (x ∷ xs) popped used [] in (r, none ∷ ps)
read_list (suc n) (x ∷ xs) popped used (l ∷ free) =
    let (r, ps) = read_list n xs (x ∷ popped) (l ∷ used) free in (r, some x ∷ ps)

-- Any number of calls of `pop` return. They hand out the elements that the reader knows, up to the
-- last one that it was synchronized to, in the order of the FIFO and each into a link of its own, and
-- null pointers once no element or no link is left; the FIFO is not changed.
pub pops-read_list :
    (n : ℕ) (s : FifoGeneric) (reader : Reader) (xs popped used free : List ℕ)
    → IsReading s reader xs popped used free
    → (reader' : Reader) × (pops n s reader ≡ some (reader', (read_list n xs popped used free).1))
      × IsReading s reader'
          (read_list n xs popped used free).0.unread
          (read_list n xs popped used free).0.popped
          (read_list n xs popped used free).0.used
          (read_list n xs popped used free).0.free
unfolding pops read_list
pops-read_list zero s reader xs popped used free h = (reader, refl, h)
pops-read_list (suc n) s reader [] popped used free h =
    let (reader', r, h') = pops-read_list n s reader [] popped used free h in
    (reader', rw (reader_pop-nothing s reader popped used free h, r) refl, h')
pops-read_list (suc n) s reader (x ∷ xs) popped used [] h =
    let (reader', r, h') = pops-read_list n s reader (x ∷ xs) popped used [] h in
    (reader', rw (reader_pop-no_link s reader x xs popped used h, r) refl, h')
pops-read_list (suc n) s reader (x ∷ xs) popped used (l ∷ free) h =
    let (reader₁, r, h₁) = reader_pop-IsReading s reader x l xs popped used free h in
    let (reader₂, r', h₂) = pops-read_list n s reader₁ xs (x ∷ popped) (l ∷ used) free h₁ in
    (reader₂, rw (r, r') refl, h₂)
