-- ===== src/Clock/Cut.antt =====
-- How `dequeue` of src/clock.cpp takes an event out of the links, wherever it stands.
use tasking_framework.Base.{
  ℕ, suc, ◌≡◌, ◌<◌, refl, false, none, some, List, [], ◌∷◌, ◌++◌, arith, Ptr, update, ◌==◌, inl,
  inr, Bool-cases, length, ◌∉◌, Distinct, Chain, Chain-cut, Chain-drop, Chain-suffix, last-mem,
  last_ptr, last_or, last_or-cons, last-cons, last-append, Distinct-suffix, Distinct-apart, sym,
  ◌∙◌, has-append,
}
use mathlib.Core.Option.{some-injective}
use mathlib.Core.Path.{subst}
use mathlib.Core.List.{append-nil}
use tasking_framework.Clock.{Clock, correct_same_time}
use tasking_framework.Clock.Order.{
  InOrder, InOrder-frame, InOrder-append, InOrder-prefix, InOrder-suffix, InOrder-gap, fits-gap,
}
use tasking_framework.Clock.Correct.{starts-gap, correct-IsCorrected}
use tasking_framework.Clock.Remove.{cut, cut_tail, cut_inside, correct_after}
use tasking_framework.Clock.Pending.{correct-returns}

module _ (events : ℕ) where
  -- What taking an event out leaves: the list of the others, and their state.
  pub record IsCut (c d : Clock) (whole xs : List ℕ) : Type 0 where
    pub chain : Chain d.next d.queue_head xs
    pub end : d.queue_tail ≡ last_ptr xs
    pub queued : d.queued ≡ c.queued
    pub times : d.next_activation ≡ c.next_activation
    pub order :
        (n : ℕ)
        → InOrder n c.next_activation c.previous none whole
        → InOrder n c.next_activation d.previous none xs

  -- What the correction of the pointers behind `p` does to them, if `x` stood there before `y`.
  abbrev Corrects : Clock → ℕ → Ptr → ℕ → List ℕ → (ℕ → Ptr) → Type 0
  Corrects c x p y ys q =
      (n : ℕ)
      → InOrder n c.next_activation c.previous p (x ∷ y ∷ ys)
      → InOrder n c.next_activation q p (y ∷ ys) × ((a : ℕ) → a ∉ (y ∷ ys) → q a ≡ c.previous a)

  loop-Corrects :
      (x y : ℕ) (p : Ptr) (c : Clock) (ys : List ℕ) (q : ℕ → Ptr)
      → Chain c.next (some y) (y ∷ ys)
      → Distinct (y ∷ ys)
      → length (y ∷ ys) < suc events
      → (c.next_activation x == c.next_activation y) ≡ false
      → correct_same_time
          (suc events)
          c.next
          c.next_activation
          (c.next_activation y)
          p
          (some y)
          c.previous
        ≡ some q
      → Corrects c x p y ys q
  loop-Corrects x y p c ys q chain once b ne r n o =
      let time = c.next_activation in
      let done =
        correct-IsCorrected (suc events) n c.next time c.previous (some x) p y ys chain once b o.2
          (fits-gap n time c.previous p x y ys o) (starts-gap n time c.previous p x y ys o ne) in
      let same : done.corrected ≡ q = some-injective done.corrected q (sym done.returns ∙ r) in
      subst (λ k. InOrder n time k p (y ∷ ys) × ((a : ℕ) → a ∉ (y ∷ ys) → k a ≡ c.previous a)) same
        (done.order, done.others)

  correct_after-returns :
      (x y : ℕ) (previous : Ptr) (c : Clock) (ys : List ℕ)
      → Chain c.next (some y) (y ∷ ys)
      → Distinct (y ∷ ys)
      → length (y ∷ ys) < suc events
      → (q : ℕ → Ptr) × (correct_after events x y previous c ≡ some (record c { previous = q }))
        × Corrects c x previous y ys q
  unfolding correct_after
  correct_after-returns x y previous c ys chain once b =
      let (q, r) =
        correct-returns (suc events) c.next c.next_activation (c.next_activation y) previous
          (some y) c.previous (y ∷ ys) chain b in
      elim (Bool-cases (c.next_activation x == c.next_activation y)) [
        | inl e ↦ (
          c.previous,
          ground arith,
          λ n o. (
            InOrder-gap n c.next_activation c.previous previous x y ys o (ground arith),
            λ a m. refl,
          ),
        )
        | inr e ↦ (q, ground (arith, r), loop-Corrects x y previous c ys q chain once b e r)
      ]

  -- `e` is the whole queue.
  cut-only :
      (e : ℕ) (c : Clock)
      → c.queue_head ≡ some e
      → c.queue_tail ≡ some e
      → (d : Clock) × (cut events (some e) none c ≡ some d) × IsCut c d (e ∷ []) []
  unfolding cut cut_tail
  cut-only e c h t = (
    record c { queue_head = none; queue_tail = none },
    ground (arith, h, t),
    record { chain = refl; end = refl; queued = refl; times = refl; order = λ n o. tt },
  )

  -- `e` is the last of several.
  cut-last :
      (e x : ℕ) (xs : List ℕ) (c : Clock)
      → Chain c.next c.queue_head (x ∷ (xs ++ e ∷ []))
      → c.queue_tail ≡ some e
      → Distinct (x ∷ (xs ++ e ∷ []))
      → (d : Clock) × (cut events (some e) (last_ptr (x ∷ xs)) c ≡ some d)
        × IsCut c d (x ∷ (xs ++ e ∷ [])) (x ∷ (xs ++ []))
  unfolding cut cut_tail
  cut-last e x xs c chain t once =
      let (l, last) = last-cons x xs in
      let linked = Chain-cut c.next c.queue_head x xs e l [] chain once last in
      (
        record c { queue_tail = some l; next = update c.next l none },
        ground (arith, chain.0, t, last, has-append x xs (e ∷ []), once.0),
        record {
          chain =
              subst (λ v. Chain (update c.next l v) c.queue_head (x ∷ (xs ++ [])))
                (Chain-drop c.next c.queue_head (x ∷ xs) e [] chain) linked;
          end = rw append-nil (sym last);
          queued = refl;
          times = refl;
          order = λ n o.
              rw append-nil
                (InOrder-prefix n c.next_activation c.previous none (x ∷ xs) (e ∷ []) o);
        },
      )

  -- `e` is the first of several.
  cut-first :
      (e y : ℕ) (ys : List ℕ) (c : Clock)
      → Chain c.next c.queue_head (e ∷ y ∷ ys)
      → c.queue_tail ≡ last_ptr (y ∷ ys)
      → Distinct (e ∷ y ∷ ys)
      → length (y ∷ ys) < suc events
      → (d : Clock) × (cut events (some e) none c ≡ some d) × IsCut c d (e ∷ y ∷ ys) (y ∷ ys)
  unfolding cut cut_inside
  cut-first e y ys c chain t once b =
      let (l, last) = last-cons y ys in
      let rest = subst (λ p. Chain c.next p (y ∷ ys)) chain.1.0 chain.1 in
      let (q, r, fixed) =
        correct_after-returns e y none (record c { queue_head = some y }) ys rest once.1 b in
      (
        record c { queue_head = some y; previous = q },
        ground (arith, chain.0, chain.1.0, t, last, last-mem y ys last, r, once.0),
        record { chain = rest; end = t; queued = refl; times = refl; order = λ n o. (fixed n o).0 },
      )

  middle-InOrder :
      (n : ℕ) (time : ℕ → ℕ) (previous q : ℕ → Ptr) (e x : ℕ) (xs : List ℕ) (y : ℕ) (ys : List ℕ)
      → Distinct (x ∷ (xs ++ e ∷ y ∷ ys))
      → InOrder n time previous none (x ∷ (xs ++ e ∷ y ∷ ys))
      → (InOrder n time previous (last_ptr (x ∷ xs)) (e ∷ y ∷ ys)
          → InOrder n time q (last_ptr (x ∷ xs)) (y ∷ ys)
            × ((a : ℕ) → a ∉ (y ∷ ys) → q a ≡ previous a))
      → InOrder n time q none (x ∷ (xs ++ y ∷ ys))
  middle-InOrder n time previous q e x xs y ys once o fixed =
      let at = last_or-cons none x xs in
      let behind = InOrder-suffix n time previous none (x ∷ xs) (e ∷ y ∷ ys) o in
      let (o', others) = fixed (subst (λ k. InOrder n time previous k (e ∷ y ∷ ys)) at behind) in
      let front = InOrder-prefix n time previous none (x ∷ xs) (e ∷ y ∷ ys) o in
      let front' =
        InOrder-frame n time time previous q none (x ∷ xs) front (λ a m.
          (refl, others a (ground (arith, Distinct-apart a (x ∷ xs) (e ∷ y ∷ ys) once m)))) in
      InOrder-append n time q none (x ∷ xs) (y ∷ ys) front'
        (subst (λ k. InOrder n time q k (y ∷ ys)) (sym at) o')

  -- `e` stands between others.
  cut-middle :
      (e x : ℕ) (xs : List ℕ) (y : ℕ) (ys : List ℕ) (c : Clock)
      → Chain c.next c.queue_head (x ∷ (xs ++ e ∷ y ∷ ys))
      → c.queue_tail ≡ last_ptr (x ∷ (xs ++ e ∷ y ∷ ys))
      → Distinct (x ∷ (xs ++ e ∷ y ∷ ys))
      → length (y ∷ ys) < suc events
      → (d : Clock) × (cut events (some e) (last_ptr (x ∷ xs)) c ≡ some d)
        × IsCut c d (x ∷ (xs ++ e ∷ y ∷ ys)) (x ∷ (xs ++ y ∷ ys))
  unfolding cut cut_inside
  cut-middle e x xs y ys c chain t once b =
      let (l, last) = last-cons x xs in
      let (z, last') = last-cons y ys in
      let linked = Chain-cut c.next c.queue_head x xs e l (y ∷ ys) chain once last in
      let (to_y, _) = Chain-drop c.next c.queue_head (x ∷ xs) e (y ∷ ys) chain in
      let linked' =
        subst (λ v. Chain (update c.next l v) c.queue_head (x ∷ (xs ++ y ∷ ys))) to_y linked in
      let c' = record c { next = update c.next l (some y) } in
      let tail = t ∙ last-append (x ∷ xs) e (y ∷ ys) in
      let at_z : c.queue_tail ≡ some z = tail ∙ last' in
      let (out, once') = Distinct-suffix (x ∷ xs) (e ∷ y ∷ ys) once in
      let rest = Chain-suffix c'.next c.queue_head (x ∷ xs) y ys linked' in
      let (q, r, fixed) = correct_after-returns e y (last_ptr (x ∷ xs)) c' ys rest once' b in
      (
        record c' { previous = q },
        ground (
          arith,
          chain.0,
          to_y,
          at_z,
          last,
          last-mem y ys last',
          out,
          r,
          once.0,
          has-append x xs (e ∷ y ∷ ys),
        ),
        record {
          chain = linked';
          end = tail ∙ sym (last-append (x ∷ xs) y ys);
          queued = refl;
          times = refl;
          order =
              λ n o. middle-InOrder n c.next_activation c.previous q e x xs y ys once o (fixed n);
        },
      )

  pub cut-IsCut :
      (e : ℕ) (xs ys : List ℕ) (c : Clock)
      → Chain c.next c.queue_head (xs ++ e ∷ ys)
      → c.queue_tail ≡ last_ptr (xs ++ e ∷ ys)
      → Distinct (xs ++ e ∷ ys)
      → length ys < suc events
      → (d : Clock) × (cut events (some e) (last_or none xs) c ≡ some d)
        × IsCut c d (xs ++ e ∷ ys) (xs ++ ys)
  cut-IsCut e [] [] c chain t once b = cut-only e c chain.0 t
  cut-IsCut e [] (y ∷ ys) c chain t once b = cut-first e y ys c chain t once b
  cut-IsCut e (x ∷ xs) [] c chain t once b =
      rw (last_or-cons none x xs) (cut-last e x xs c chain (t ∙ last-append (x ∷ xs) e []) once)
  cut-IsCut e (x ∷ xs) (y ∷ ys) c chain t once b =
      rw (last_or-cons none x xs) (cut-middle e x xs y ys c chain t once b)
