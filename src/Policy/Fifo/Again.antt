-- ===== src/Policy/Fifo/Again.antt =====
-- What `queue` of src/schedulePolicyFifo.cpp does to a task that is in the run queue already.
use tasking_framework.Base.{
  ℕ, ◌≡◌, refl, ◌∙◌, sym, false, none, some, List, [], ◌∷◌, ◌++◌, arith, Ptr, is_null, update, ◌∉◌,
  Chain, Chain-frame, Distinct, Distinct-prefix, Distinct-disjoint, Distinct-snoc, differ,
  last-append, last-cons, last-mem, has-append,
}
use tasking_framework.Policy.Fifo.{Fifo, Holds, queue}

Chain-truncate :
    (next : ℕ → Ptr) (p : Ptr) (xs : List ℕ) (t : ℕ) (ys : List ℕ)
    → Chain next p (xs ++ t ∷ ys)
    → Distinct (xs ++ t ∷ ys)
    → Chain (update next t none) p (xs ++ t ∷ [])
Chain-truncate next p [] t ys c d = (c.0, ground arith)
Chain-truncate next p (x ∷ xs) t ys c d =
    let rest = Chain-truncate next (next x) xs t ys c.1 d.1 in
    (c.0, ground (arith, rest, has-append x xs (t ∷ ys)))

head_some :
    (next : ℕ → Ptr) (p : Ptr) (xs : List ℕ) (t : ℕ) (ys : List ℕ)
    → Chain next p (xs ++ t ∷ ys)
    → is_null p ≡ false
head_some next p [] t ys c = rw c.0 refl
head_some next p (x ∷ xs) t ys c = rw c.0 refl

Distinct-suffix : (xs ys : List ℕ) → Distinct (xs ++ ys) → Distinct ys
Distinct-suffix [] ys d = d
Distinct-suffix (x ∷ xs) ys d = Distinct-suffix xs ys d.1

-- Queueing a task that is in the run queue with others behind it returns, and the run queue ends with
-- the task: all tasks behind it are lost.
pub queue-again :
    (t y : ℕ) (s : Fifo) (xs ys : List ℕ)
    → Holds s (xs ++ t ∷ y ∷ ys)
    → (s' : Fifo) × (queue t s ≡ some (s', false)) × Holds s' (xs ++ t ∷ [])
unfolding queue
queue-again t y s xs ys h =
    let (l, e) = last-cons y ys in
    let end = h.end ∙ last-append xs t (y ∷ ys) ∙ e in
    let l_in = last-mem y ys e in
    let l_out = Distinct-disjoint l xs (t ∷ y ∷ ys) h.once (ground (arith, l_in)) in
    let t_out = Distinct-disjoint t xs (t ∷ y ∷ ys) h.once (ground arith) in
    let behind = Distinct-suffix xs (t ∷ y ∷ ys) h.once in
    let out : l ∉ (xs ++ t ∷ []) =
      ground (arith, has-append l xs (t ∷ []), l_out, differ l t (y ∷ ys) l_in behind.0) in
    (
      record { head = s.head; tail = some t; next = update (update s.next t none) l (some t) },
      rw (head_some s.next s.head xs t (y ∷ ys) h.chain, end) refl,
      record {
        chain =
            Chain-frame (update s.next t none) s.head (xs ++ t ∷ []) l (some t)
              (Chain-truncate s.next s.head xs t (y ∷ ys) h.chain h.once) out;
        end = sym (last-append xs t []);
        once = Distinct-snoc t xs (Distinct-prefix xs (t ∷ y ∷ ys) h.once) t_out;
      },
    )
