-- ===== src/Base/Linked.antt =====
-- Singly linked lists of numbered objects: the shape that the run queues and the lists of inputs,
-- tasks and triggers share.
use Prim.Native.Nat.{ℕ}
use mathlib.Core.Path.{◌≡◌, refl, sym, subst}
use mathlib.Core.Option.{none, some}
use mathlib.Core.List.{List, [], ◌∷◌, ◌++◌}
use native.Mathlib.Omega.{arith}
use tasking_framework.Base.Tests.{Ptr, update}
use tasking_framework.Base.Lists.{◌∈◌, ◌∉◌, Distinct, has-append}

-- From `p` the `next` pointers lead through the objects of the list to null.
abbrev pub Chain : (ℕ → Ptr) → Ptr → List ℕ → Type 0
Chain next p [] = p ≡ none
Chain next p (x ∷ xs) = (p ≡ some x) × Chain next (next x) xs

-- A pointer to the last object of a list.
abbrev pub last_ptr : List ℕ → Ptr
last_ptr [] = none
last_ptr (x ∷ []) = some x
last_ptr (x ∷ y ∷ xs) = last_ptr (y ∷ xs)

module _ (next : ℕ → Ptr) where
  -- A change of an object outside the chain leaves the chain alone.
  pub Chain-frame :
      (p : Ptr) (xs : List ℕ) (k : ℕ) (v : Ptr)
      → Chain next p xs
      → k ∉ xs
      → Chain (update next k v) p xs
  Chain-frame p [] k v c out = c
  Chain-frame p (x ∷ xs) k v c out = (c.0, ground (arith, Chain-frame (next x) xs k v c.1))

  -- The chain determines its list.
  pub Chain-unique : (p : Ptr) (xs ys : List ℕ) → Chain next p xs → Chain next p ys → xs ≡ ys
  Chain-unique p [] [] c d = refl
  Chain-unique p [] (y ∷ ys) c d = cc
  Chain-unique p (x ∷ xs) [] c d = cc
  Chain-unique p (x ∷ xs) (y ∷ ys) c d = ground (arith, Chain-unique (next x) xs ys)

pub last-mem : (x : ℕ) (xs : List ℕ) {l : ℕ} → last_ptr (x ∷ xs) ≡ some l → l ∈ (x ∷ xs)
last-mem x [] e = ground arith
last-mem x (y ∷ xs) e = ground (arith, last-mem y xs e)

-- Linking a new object behind the last one extends the chain at its end.
pub Chain-snoc :
    (next : ℕ → Ptr) (p : Ptr) (x : ℕ) (xs : List ℕ) (l t : ℕ)
    → Chain next p (x ∷ xs)
    → Distinct (x ∷ xs)
    → t ∉ (x ∷ xs)
    → last_ptr (x ∷ xs) ≡ some l
    → next t ≡ none
    → Chain (update next l (some t)) p (x ∷ (xs ++ t ∷ []))
Chain-snoc next p x [] l t c d out e n = (c.0, (ground arith, ground arith))
Chain-snoc next p x (y ∷ xs) l t c d out e n =
    let rest = Chain-snoc next (next x) y xs l t c.1 d.1 (ground arith) e n in
    (c.0, (ground (arith, last-mem y xs e), rest.1))

pub last-snoc : (x : ℕ) (xs : List ℕ) (t : ℕ) → last_ptr (x ∷ (xs ++ t ∷ [])) ≡ some t
last-snoc x [] t = refl
last-snoc x (y ∷ xs) t = last-snoc y xs t

pub last-cons : (x : ℕ) (xs : List ℕ) → (l : ℕ) × (last_ptr (x ∷ xs) ≡ some l)
last-cons x [] = (x, refl)
last-cons x (y ∷ xs) = last-cons y xs

-- The last object of a list, or what stands before the list.
abbrev pub last_or : Ptr → List ℕ → Ptr
last_or p [] = p
last_or p (x ∷ xs) = last_or (some x) xs

pub last_or-cons : (p : Ptr) (x : ℕ) (xs : List ℕ) → last_or p (x ∷ xs) ≡ last_ptr (x ∷ xs)
last_or-cons p x [] = refl
last_or-cons p x (y ∷ xs) = last_or-cons (some x) y xs

pub last-append : (xs : List ℕ) (y : ℕ) (ys : List ℕ) → last_ptr (xs ++ y ∷ ys) ≡ last_ptr (y ∷ ys)
last-append [] y ys = refl
last-append (x ∷ []) y ys = refl
last-append (x ∷ z ∷ xs) y ys = last-append (z ∷ xs) y ys

-- The end of a chain.
pub Chain-drop :
    (next : ℕ → Ptr) (p : Ptr) (xs : List ℕ) (e : ℕ) (ys : List ℕ)
    → Chain next p (xs ++ e ∷ ys)
    → Chain next (next e) ys
Chain-drop next p [] e ys c = c.1
Chain-drop next p (x ∷ xs) e ys c = Chain-drop next (next x) xs e ys c.1

pub Chain-suffix :
    (next : ℕ → Ptr) (p : Ptr) (xs : List ℕ) (y : ℕ) (ys : List ℕ)
    → Chain next p (xs ++ y ∷ ys)
    → Chain next (some y) (y ∷ ys)
Chain-suffix next p [] y ys c = (refl, c.1)
Chain-suffix next p (x ∷ xs) y ys c = Chain-suffix next (next x) xs y ys c.1

-- Linking the object before `e` to the one behind it takes `e` out of the chain.
pub Chain-cut :
    (next : ℕ → Ptr) (p : Ptr) (x : ℕ) (xs : List ℕ) (e l : ℕ) (ys : List ℕ)
    → Chain next p (x ∷ (xs ++ e ∷ ys))
    → Distinct (x ∷ (xs ++ e ∷ ys))
    → last_ptr (x ∷ xs) ≡ some l
    → Chain (update next l (next e)) p (x ∷ (xs ++ ys))
Chain-cut next p x [] e l ys c d last =
    (c.0, ground (arith, Chain-frame next (next e) ys x (next e) c.1.1 (ground (arith, d.0))))
Chain-cut next p x (y ∷ xs) e l ys c d last =
    let rest = Chain-cut next (next x) y xs e l ys c.1 d.1 last in
    (c.0, (ground (arith, last-mem y xs last, has-append l (y ∷ xs) (e ∷ ys)), rest.1))

-- Linking a new object behind `l` puts it into the chain there.
pub Chain-insert :
    (next : ℕ → Ptr) (p : Ptr) (x : ℕ) (xs : List ℕ) (t l : ℕ) (ys : List ℕ)
    → Chain next p (x ∷ (xs ++ ys))
    → Distinct (x ∷ (xs ++ ys))
    → t ∉ (x ∷ (xs ++ ys))
    → last_ptr (x ∷ xs) ≡ some l
    → Chain (update (update next t (next l)) l (some t)) p (x ∷ (xs ++ t ∷ ys))
Chain-insert next p x [] t l ys c d out last =
    let once = Chain-frame next (next x) ys t (next x) c.1 (ground arith) in
    let twice = Chain-frame (update next t (next x)) (next x) ys x (some t) once d.0 in
    let e : x ≡ l = ground (arith, last) in
    subst (λ k. Chain (update (update next t (next k)) k (some t)) p (x ∷ t ∷ ys)) e
      (c.0, (ground arith, ground (arith, twice)))
Chain-insert next p x (y ∷ xs) t l ys c d out last =
    let rest = Chain-insert next (next x) y xs t l ys c.1 d.1 (ground arith) last in
    (c.0, (ground (arith, last-mem y xs last, has-append l (y ∷ xs) ys), rest.1))

-- The same where the new object is unlinked last.
pub Chain-extend :
    (next : ℕ → Ptr) (p : Ptr) (x : ℕ) (xs : List ℕ) (l t : ℕ)
    → Chain next p (x ∷ xs)
    → Distinct (x ∷ xs)
    → t ∉ (x ∷ xs)
    → last_ptr (x ∷ xs) ≡ some l
    → Chain (update (update next l (some t)) t none) p (x ∷ (xs ++ t ∷ []))
Chain-extend next p x [] l t c d out e = (c.0, (ground arith, ground arith))
Chain-extend next p x (y ∷ xs) l t c d out e =
    let rest = Chain-extend next (next x) y xs l t c.1 d.1 (ground arith) e in
    (c.0, (ground (arith, last-mem y xs e), rest.1))

pub Chain-cons :
    (next : ℕ → Ptr) (p : Ptr) (x : ℕ) (xs : List ℕ)
    → Chain next p xs
    → x ∉ xs
    → Chain (update next x p) (some x) (x ∷ xs)
Chain-cons next p x xs c out = (refl, ground (arith, Chain-frame next p xs x p c out))

-- The object before another one is linked to it.
pub Chain-link :
    (next : ℕ → Ptr) (p : Ptr) (x : ℕ) (xs : List ℕ) (l t : ℕ) (ys : List ℕ)
    → Chain next p (x ∷ (xs ++ t ∷ ys))
    → last_ptr (x ∷ xs) ≡ some l
    → next l ≡ some t
Chain-link next p x [] l t ys c last = ground (arith, c.1.0)
Chain-link next p x (y ∷ xs) l t ys c last = Chain-link next (next x) y xs l t ys c.1 last

-- A chain rests on the pointers of its own objects.
pub Chain-same :
    (f g : ℕ → Ptr) (p : Ptr) (xs : List ℕ)
    → Chain f p xs
    → ((a : ℕ) → a ∈ xs → g a ≡ f a)
    → Chain g p xs
Chain-same f g p [] c same = c
Chain-same f g p (x ∷ xs) c same = (
  c.0,
  subst (λ q. Chain g q xs) (sym (same x (ground arith)))
      (Chain-same f g (f x) xs c.1 (λ a m. same a (ground arith))),
)
