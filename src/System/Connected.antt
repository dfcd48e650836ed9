-- ===== src/System/Connected.antt =====
-- The invariant on the inputs' pointers to their channels (`m_channel` of
-- include/impl/taskInput_impl.h) and the lists of inputs of the channels in src/taskChannel.cpp.
pub mod Association
use tasking_framework.Base.{
  eq_of_test, is_null, Option-cases, ◌||◌, remove-absent, ℕ, suc, ◌≡◌, ◌≤◌, ◌<◌, refl, sym, true,
  false, none, some, List, [], ◌∷◌, arith, Ptr, same_ptr, update, ◌==◌, if◌then◌else◌, inl, inr,
  Bool-cases, length, has, ◌∉◌, ◌∈◌, Distinct, Below, Chain, Chain-same, Distinct-length-le, remove,
  remove-Distinct, Below-remove, not-mem-remove,
}
use mathlib.Core.Path.{subst}
use tasking_framework.System.World.{World, Platform, set_input}
use tasking_framework.System.Wiring.{associate_to, associate, deassociate_at, deassociate}
use tasking_framework.System.Members.{
  next_of, Members, in_list-has, put_in_front, put_in_front-Members, leave-Left,
}

pub has-remove-other : (a b : ℕ) (xs : List ℕ) → (b == a) ≡ false → has b (remove a xs) ≡ has b xs
has-remove-other a b [] ne = refl
has-remove-other a b (x ∷ xs) ne = ground (arith, has-remove-other a b xs ne)

-- A property of every channel and its list, after one list has changed.
pub by_channel :
    (P : ℕ → List ℕ → Type 0) (lists : ℕ → List ℕ) (c : ℕ) (xs : List ℕ)
    → P c xs
    → ((d : ℕ) → (d == c) ≡ false → P d (lists d))
    → (d : ℕ) → P d (update lists c xs d)
by_channel P lists c xs here others d = elim (Bool-cases (d == c)) [
  | inl e ↦
      let at : update lists c xs d ≡ xs = rw e refl in
      subst (λ l. P d l) (sym at) (subst (λ k. P k xs) (sym (eq_of_test d c e)) here)
  | inr ne ↦
      let at : update lists c xs d ≡ lists d = rw ne refl in
      subst (λ l. P d l) (sym at) (others d ne)
]

module _ {Q E : Type 0} (platform : Platform E) where
  -- Every channel's list holds the inputs that point to the channel, each once.
  pub record IsConnected (w : World Q E) (lists : ℕ → List ℕ) : Type 0 where
    pub listed : (c : ℕ) → Members platform w c (lists c)
    pub once : (c : ℕ) → Distinct (lists c)
    pub known : (c : ℕ) → Below platform.inputs (lists c)
    pub owned : (c i : ℕ) → has i (lists c) ≡ same_ptr (some c) (w.inputs i).channel

  pub short :
      (w : World Q E) (lists : ℕ → List ℕ)
      → IsConnected w lists
      → (c : ℕ) → length (lists c) ≤ platform.inputs
  short w lists k c = Distinct-length-le platform.inputs (lists c) (k.once c) (k.known c)

  -- The state with the input's pointer set.
  abbrev pub pointed : ℕ → Ptr → World Q E → World Q E
  pointed i p w = set_input i (record (w.inputs i) { channel = p }) w

  pub pointed-Members :
      (i c : ℕ) (p : Ptr) (w : World Q E) (is : List ℕ)
      → Members platform w c is
      → Members platform (pointed i p w) c is
  pointed-Members i c p w is h =
      Chain-same (next_of platform w) (next_of platform (pointed i p w)) (w.channels c).inputs is h
        (λ a m. ground arith)

  -- A list that the step does not reach.
  pub Members-apart :
      (d : ℕ) (w w' : World Q E) (is : List ℕ)
      → (w'.channels d).inputs ≡ (w.channels d).inputs
      → ((a : ℕ) → a ∈ is → next_of platform w' a ≡ next_of platform w a)
      → Members platform w d is
      → Members platform w' d is
  Members-apart d w w' is e same h =
      subst (λ p. Chain (next_of platform w') p is) (sym e)
        (Chain-same (next_of platform w) (next_of platform w') (w.channels d).inputs is h same)

  pub same-IsConnected :
      (w : World Q E) (ls ks : ℕ → List ℕ)
      → ((c : ℕ) → ls c ≡ ks c)
      → IsConnected w ls
      → IsConnected w ks
  same-IsConnected w ls ks e k = record {
    listed = λ c. subst (λ l. Members platform w c l) (e c) (k.listed c);
    once = λ c. subst (λ l. Distinct l) (e c) (k.once c);
    known = λ c. subst (λ l. Below platform.inputs l) (e c) (k.known c);
    owned =
        λ c i. subst (λ l. has i l ≡ same_ptr (some c) (w.inputs i).channel) (e c) (k.owned c i);
  }
