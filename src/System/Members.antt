-- ===== src/System/Members.antt =====
-- `associateTo` and `deassociate` of src/taskChannel.cpp on the list of inputs of a channel.
use tasking_framework.Base.{
  ℕ, zero, suc, ◌≡◌, ◌≤◌, ◌<◌, refl, sym, false, some, List, [], ◌∷◌, ◌++◌, arith, Ptr, update,
  ◌==◌, length, has, has-append, ◌∉◌, ◌∈◌, Distinct, Chain, Chain-cut, Chain-same, last_ptr,
  last-cons, last-mem, remove, remove-append, mem-split,
}
use mathlib.Core.Path.{subst}
use tasking_framework.System.World.{World, Platform}
use tasking_framework.System.Wiring.{
  in_list, find_previous, unlink, deassociate_from, set_channel_inputs, set_next_input,
}

-- The pointer of the object before `e`.
Chain-last :
    (next : ℕ → Ptr) (p : Ptr) (x : ℕ) (xs : List ℕ) (e l : ℕ) (ys : List ℕ)
    → Chain next p (x ∷ (xs ++ e ∷ ys))
    → last_ptr (x ∷ xs) ≡ some l
    → next l ≡ some e
Chain-last next p x [] e l ys c h = ground (arith, c.1.0)
Chain-last next p x (y ∷ xs) e l ys c h = Chain-last next (next x) y xs e l ys c.1 h

module _ {Q E : Type 0} (platform : Platform E) where
  abbrev pub next_of : World Q E → ℕ → Ptr
  next_of w j = (w.inputs j).channel_next_input

  -- The inputs that are associated to the channel.
  abbrev pub Members : World Q E → ℕ → List ℕ → Type 0
  Members w c is = Chain (next_of w) (w.channels c).inputs is

  pub in_list-has :
      (fuel i : ℕ) (p : Ptr) (w : World Q E) (is : List ℕ)
      → Chain (next_of w) p is
      → length is < fuel
      → in_list platform fuel i p w ≡ some (has i is)
  unfolding in_list
  in_list-has zero i p w is c b = absurd (omega arith)
  in_list-has (suc fuel) i p w [] c b = rw c refl
  in_list-has (suc fuel) i p w (j ∷ is) c b =
      let rest = in_list-has fuel i (next_of w j) w is c.1 (omega arith) in
      ground (arith, c.0, rest)

  -- The state with the input in front of the list of the channel.
  abbrev pub put_in_front : ℕ → ℕ → World Q E → World Q E
  put_in_front c i w =
      set_channel_inputs platform c (some i) (set_next_input platform i (w.channels c).inputs w)

  pub put_in_front-Members :
      (c i : ℕ) (w : World Q E) (is : List ℕ)
      → Members w c is
      → i ∉ is
      → Members (put_in_front c i w) c (i ∷ is)
  unfolding set_channel_inputs set_next_input
  put_in_front-Members c i w is h out =
      let w' = put_in_front c i w in
      let first : (w.channels c).inputs ≡ next_of w' i = ground arith in
      let rest =
        Chain-same (next_of w) (next_of w') (w.channels c).inputs is h
          (λ a m. ground (arith, out)) in
      (ground arith, subst (λ p. Chain (next_of w') p is) first rest)

  find_previous-present :
      (fuel i h : ℕ) (p : Ptr) (w : World Q E) (xs ys : List ℕ)
      → Chain (next_of w) p (xs ++ i ∷ ys)
      → length (xs ++ i ∷ ys) < fuel
      → i ∉ xs
      → find_previous platform fuel i h p w ≡ last_ptr (h ∷ xs)
  unfolding find_previous
  find_previous-present zero i h p w xs ys c b out = absurd (omega arith)
  find_previous-present (suc fuel) i h p w [] ys c b out = ground (arith, c.0)
  find_previous-present (suc fuel) i h p w (x ∷ xs) ys c b out =
      let rest =
        find_previous-present fuel i x (next_of w x) w xs ys c.1 (omega arith) (ground arith) in
      ground (arith, c.0, rest)

  -- The list of the channel has changed, and nothing of the other channels.
  pub record HasLeft (c : ℕ) (w w' : World Q E) (is ks : List ℕ) : Type 0 where
    pub members : Members w' c ks
    pub others : (d : ℕ) → (d == c) ≡ false → (w'.channels d).inputs ≡ (w.channels d).inputs
    pub apart : (a : ℕ) → a ∉ is → next_of w' a ≡ next_of w a
    pub kept : (a : ℕ) → (w'.inputs a).channel ≡ (w.inputs a).channel

  abbrev pub Left : ℕ → ℕ → World Q E → List ℕ → List ℕ → Type 0
  Left c i w is ks =
      (w' : World Q E) × (deassociate_from platform c i w ≡ some w') × HasLeft c w w' is ks

  -- The first input of the list.
  leave_first :
      (c i : ℕ) (w : World Q E) (is : List ℕ) → Members w c (i ∷ is) → Left c i w (i ∷ is) is
  unfolding deassociate_from set_channel_inputs
  leave_first c i w is h =
      let w' = set_channel_inputs platform c (next_of w i) w in
      let first : next_of w i ≡ (w'.channels c).inputs = ground arith in
      (
        w',
        ground (arith, h.0),
        record {
          members = subst (λ p. Chain (next_of w) p is) first h.1;
          others = λ d ne. ground arith;
          apart = λ a out. refl;
          kept = λ a. refl;
        },
      )

  -- An input behind the first one.
  leave_inside :
      (c i x : ℕ) (w : World Q E) (xs ys : List ℕ)
      → Members w c (x ∷ (xs ++ i ∷ ys))
      → Distinct (x ∷ (xs ++ i ∷ ys))
      → length (x ∷ (xs ++ i ∷ ys)) ≤ platform.inputs
      → i ∉ (x ∷ xs)
      → Left c i w (x ∷ (xs ++ i ∷ ys)) (x ∷ (xs ++ ys))
  unfolding deassociate_from unlink set_next_input
  leave_inside c i x w xs ys h d b out =
      let (l, last) = last-cons x xs in
      let p = (w.channels c).inputs in
      let w' = set_next_input platform l (next_of w i) w in
      let found =
        find_previous-present (suc platform.inputs) i x (next_of w x) w xs ys h.1 (omega arith)
          (ground arith) in
      let at = Chain-last (next_of w) p x xs i l ys h last in
      (
        w',
        ground (arith, h.0, found, last, at, out),
        record {
          members =
              Chain-same (update (next_of w) l (next_of w i)) (next_of w') p (x ∷ (xs ++ ys))
                (Chain-cut (next_of w) p x xs i l ys h d last) (λ a m. ground arith);
          others = λ k ne. refl;
          apart = λ a away. ground (arith, last-mem x xs last, has-append l (x ∷ xs) (i ∷ ys));
          kept = λ a. ground arith;
        },
      )

  leave_split :
      (c i : ℕ) (w : World Q E) (xs ys : List ℕ)
      → Members w c (xs ++ i ∷ ys)
      → Distinct (xs ++ i ∷ ys)
      → length (xs ++ i ∷ ys) ≤ platform.inputs
      → i ∉ xs
      → Left c i w (xs ++ i ∷ ys) (remove i (xs ++ i ∷ ys))
  leave_split c i w [] ys h d b out = rw (remove-append i [] ys out) (leave_first c i w ys h)
  leave_split c i w (x ∷ xs) ys h d b out =
      rw (remove-append i (x ∷ xs) ys out) (leave_inside c i x w xs ys h d b out)

  -- An input of the list, wherever it stands.
  pub leave-Left :
      (c i : ℕ) (w : World Q E) (is : List ℕ)
      → Members w c is
      → Distinct is
      → length is ≤ platform.inputs
      → i ∈ is
      → Left c i w is (remove i is)
  leave-Left c i w is h d b m =
      let (xs, ys, e, out) = mem-split i is m in
      subst (λ l. Left c i w l (remove i l)) (sym e)
        (leave_split c i w xs ys (subst (λ l. Members w c l) e h) (subst (λ l. Distinct l) e d)
          (subst (λ l. length l ≤ platform.inputs) e b) out)
