-- ===== src/Base/Lists.antt =====
-- Lists over the native numbers: length, indexing, membership and distinctness as Boolean tests.
use Prim.Native.Nat.{ℕ, zero, suc, ◌+◌, ◌≤◌, ◌<◌}
use mathlib.Core.Path.{◌≡◌, refl, ap, sym, subst}
use mathlib.Core.Logic.{inl, inr}
use mathlib.Core.Bool.{Bool, true, false, ◌||◌}
use mathlib.Core.Option.{Option, none, some}
use mathlib.Core.List.{List, [], ◌∷◌, ◌++◌}
use native.Mathlib.Omega.{arith}
use tasking_framework.Base.Tests.{◌==◌, if◌then◌else◌, Bool-cases, eq_of_test}

module _ {ℓ} {A : Type ℓ} where
  abbrev pub length : List A → ℕ
  length [] = 0
  length (x ∷ xs) = suc (length xs)

  abbrev pub get_elem? : List A → ℕ → Option A
  get_elem? [] i = none
  get_elem? (x ∷ xs) zero = some x
  get_elem? (x ∷ xs) (suc i) = get_elem? xs i

  -- A write out of bounds changes nothing.
  abbrev pub set : List A → ℕ → A → List A
  set [] i v = []
  set (x ∷ xs) zero v = v ∷ xs
  set (x ∷ xs) (suc i) v = x ∷ set xs i v

  pub length-append : (xs ys : List A) → length (xs ++ ys) ≡ length xs + length ys
  length-append [] ys = omega arith
  length-append (x ∷ xs) ys = omega (arith, length-append xs ys)

-- Whether a number occurs in a list.
abbrev pub has : ℕ → List ℕ → Bool
has a [] = false
has a (x ∷ xs) = (a == x) || has a xs

infix 40 ◌∈◌ ◌∉◌
abbrev pub ◌∈◌ : ℕ → List ℕ → Type 0
a ∈ xs = has a xs ≡ true

abbrev pub ◌∉◌ : ℕ → List ℕ → Type 0
a ∉ xs = has a xs ≡ false

-- No number occurs twice.
abbrev pub Distinct : List ℕ → Type 0
Distinct [] = Unit {0}
Distinct (x ∷ xs) = (x ∉ xs) × Distinct xs

pub has-append : (a : ℕ) (xs ys : List ℕ) → has a (xs ++ ys) ≡ (has a xs || has a ys)
has-append a [] ys = refl
has-append a (x ∷ xs) ys = ground (arith, has-append a xs ys)

pub Distinct-snoc : (x : ℕ) (xs : List ℕ) → Distinct xs → x ∉ xs → Distinct (xs ++ x ∷ [])
Distinct-snoc x [] d out = (refl, tt)
Distinct-snoc x (y ∷ xs) d out =
    (ground (arith, has-append y xs (x ∷ [])), Distinct-snoc x xs d.1 (ground arith))

pub Distinct-suffix : (xs ys : List ℕ) → Distinct (xs ++ ys) → Distinct ys
Distinct-suffix [] ys d = d
Distinct-suffix (x ∷ xs) ys d = Distinct-suffix xs ys d.1

-- Numbers of two parts of such a list differ.
pub Distinct-disjoint : (a : ℕ) (xs ys : List ℕ) → Distinct (xs ++ ys) → a ∈ ys → a ∉ xs
Distinct-disjoint a [] ys d m = refl
Distinct-disjoint a (x ∷ xs) ys d m =
    ground (arith, Distinct-disjoint a xs ys d.1, has-append x xs ys)

pub Distinct-apart : (a : ℕ) (xs ys : List ℕ) → Distinct (xs ++ ys) → a ∈ xs → a ∉ ys
Distinct-apart a [] ys d m = absurd (cc)
Distinct-apart a (x ∷ xs) ys d m = ground (arith, Distinct-apart a xs ys d.1, has-append x xs ys)

pub Distinct-prefix : (xs ys : List ℕ) → Distinct (xs ++ ys) → Distinct xs
Distinct-prefix [] ys d = tt
Distinct-prefix (x ∷ xs) ys d = ground (arith, Distinct-prefix xs ys d.1, has-append x xs ys)

-- Every number of the list is smaller than `n`.
abbrev pub Below : ℕ → List ℕ → Type 0
Below n [] = Unit {0}
Below n (x ∷ xs) = (x < n) × Below n xs

abbrev pub remove : ℕ → List ℕ → List ℕ
remove a [] = []
remove a (x ∷ xs) = if a == x then xs else x ∷ remove a xs

pub has-remove : (a b : ℕ) (xs : List ℕ) → b ∉ xs → b ∉ remove a xs
has-remove a b [] out = refl
has-remove a b (x ∷ xs) out = ground (arith, has-remove a b xs)

pub remove-Distinct : (a : ℕ) (xs : List ℕ) → Distinct xs → Distinct (remove a xs)
remove-Distinct a [] d = tt
remove-Distinct a (x ∷ xs) d = ground (arith, remove-Distinct a xs d.1, has-remove a x xs)

pub Below-remove : (n a : ℕ) (xs : List ℕ) → Below n xs → Below n (remove a xs)
Below-remove n a [] b = tt
Below-remove n a (x ∷ xs) b = ground (arith, Below-remove n a xs b.1)

-- A number put into a list.
module _ (t : ℕ) where
  pub has-insert : (a : ℕ) (xs ys : List ℕ) → has a (xs ++ t ∷ ys) ≡ ((a == t) || has a (xs ++ ys))
  has-insert a [] ys = refl
  has-insert a (x ∷ xs) ys = ground (arith, has-insert a xs ys)

  pub Distinct-insert :
      (xs ys : List ℕ) → Distinct (xs ++ ys) → t ∉ (xs ++ ys) → Distinct (xs ++ t ∷ ys)
  Distinct-insert [] ys d out = (out, d)
  Distinct-insert (x ∷ xs) ys d out = ground (arith, Distinct-insert xs ys d.1, has-insert x xs ys)

  pub Below-insert : (n : ℕ) (xs ys : List ℕ) → Below n (xs ++ ys) → t < n → Below n (xs ++ t ∷ ys)
  Below-insert n [] ys b h = (h, b)
  Below-insert n (x ∷ xs) ys b h = (b.0, Below-insert n xs ys b.1 h)

-- A list without the number is unchanged.
pub remove-absent : (a : ℕ) (xs : List ℕ) → a ∉ xs → remove a xs ≡ xs
remove-absent a [] out = refl
remove-absent a (x ∷ xs) out = ground (arith, remove-absent a xs)

pub remove-append : (a : ℕ) (xs ys : List ℕ) → a ∉ xs → remove a (xs ++ a ∷ ys) ≡ xs ++ ys
remove-append a [] ys out = ground arith
remove-append a (x ∷ xs) ys out = ground (arith, remove-append a xs ys)

-- What is removed from a list without repetition is not in it any more.
pub not-mem-remove : (a : ℕ) (xs : List ℕ) → Distinct xs → a ∉ remove a xs
not-mem-remove a [] d = refl
not-mem-remove a (x ∷ xs) d = ground (arith, not-mem-remove a xs d.1)

-- The place of a number in a list without repetition.
pub mem-split : (a : ℕ) (xs : List ℕ) → a ∈ xs → (ys zs : List ℕ) × (xs ≡ ys ++ a ∷ zs) × (a ∉ ys)
mem-split a [] m = absurd (cc)
mem-split a (x ∷ xs) m = elim (Bool-cases (a == x)) [
  | inl e ↦ ([], xs, ap (λ k. k ∷ xs) (sym (eq_of_test a x e)), refl)
  | inr ne ↦
      let (ys, zs, e, out) = mem-split a xs (ground arith) in
      (x ∷ ys, zs, ap (λ l. x ∷ l) e, ground arith)
]

Below-not-mem : (n : ℕ) (xs : List ℕ) → Below (suc n) xs → n ∉ xs → Below n xs
Below-not-mem n [] b out = tt
Below-not-mem n (x ∷ xs) b out = ground (arith, Below-not-mem n xs b.1)

remove-Below : (n : ℕ) (xs : List ℕ) → Distinct xs → Below (suc n) xs → Below n (remove n xs)
remove-Below n [] d b = tt
remove-Below n (x ∷ xs) d b = ground (arith, remove-Below n xs d.1 b.1, Below-not-mem n xs b.1)

length-remove : (a : ℕ) (xs : List ℕ) → length xs ≤ suc (length (remove a xs))
length-remove a [] = omega arith
length-remove a (x ∷ xs) = ground (arith, length-remove a xs)

-- The pigeonhole principle: distinct numbers below `n` are at most `n` many.
pub Distinct-length-le : (n : ℕ) (xs : List ℕ) → Distinct xs → Below n xs → length xs ≤ n
Distinct-length-le zero [] d b = omega arith
Distinct-length-le zero (x ∷ xs) d b = absurd (omega arith)
Distinct-length-le (suc n) xs d b = omega (
  arith,
  length-remove n xs,
  Distinct-length-le n (remove n xs) (remove-Distinct n xs d) (remove-Below n xs d b),
)

pub Below-append : (n : ℕ) (xs ys : List ℕ) → Below n xs → Below n ys → Below n (xs ++ ys)
Below-append n [] ys b c = c
Below-append n (x ∷ xs) ys b c = (b.0, Below-append n xs ys b.1 c)

-- Whether a list is empty.
abbrev pub is_empty {ℓ} : {A : Type ℓ} → List A → Bool
is_empty [] = true
is_empty (x ∷ xs) = false

module _ {ℓ} {A : Type ℓ} where
  abbrev pub drop : ℕ → List A → List A
  drop zero xs = xs
  drop (suc n) [] = []
  drop (suc n) (x ∷ xs) = drop n xs

  pub drop-le : (n : ℕ) (xs : List A) → length xs ≤ n → drop n xs ≡ []
  drop-le zero [] h = refl
  drop-le zero (x ∷ xs) h = absurd (omega arith)
  drop-le (suc n) [] h = refl
  drop-le (suc n) (x ∷ xs) h = drop-le n xs (omega arith)

pub Below-each : (n : ℕ) (xs : List ℕ) → ((a : ℕ) → a ∈ xs → a < n) → Below n xs
Below-each n [] h = tt
Below-each n (x ∷ xs) h = (h x (ground arith), Below-each n xs (λ a m. h a (ground arith)))

pub mem-remove : (a b : ℕ) (xs : List ℕ) → b ∈ remove a xs → b ∈ xs
mem-remove a b [] m = m
mem-remove a b (x ∷ xs) m = ground (arith, mem-remove a b xs)

apart : {b : Bool} → b ≡ true → b ≡ false → ⊥
apart e f = cc

pub differ : (a x : ℕ) (xs : List ℕ) → a ∈ xs → x ∉ xs → a == x ≡ false
differ a x xs m out = elim (Bool-cases (a == x)) [
  | inl e ↦ absurd (apart (subst (λ n. n ∈ xs) (eq_of_test a x e) m) out)
  | inr n ↦ n
]
