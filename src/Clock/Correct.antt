-- ===== src/Clock/Correct.antt =====
-- The loops of src/clock.cpp that correct the pointers `previous` of events with the same time.
use tasking_framework.Base.{
  ℕ, zero, suc, ◌≡◌, ◌<◌, refl, ap, ◌∙◌, Bool, true, false, Option, none, some, List, [], ◌∷◌,
  arith, Ptr, update, leb, ◌==◌, if◌then◌else◌, inl, inr, Bool-cases, ◌∉◌, ◌∈◌, length, Chain,
  Distinct,
}
use mathlib.Core.Path.{subst}
use tasking_framework.Clock.{correct_same_time, correct_heads}
use tasking_framework.Clock.Order.{fits, expected, InOrder, InOrder-frame}

-- What the loop leaves: it returns, the events behind `p` are in order, and no other event changes.
pub record IsCorrected (n : ℕ) (time : ℕ → ℕ) (previous : ℕ → Ptr) (p : Ptr) (xs : List ℕ)
    (done : Option (ℕ → Ptr)) : Type 0 where
  pub corrected : ℕ → Ptr
  pub returns : done ≡ some corrected
  pub order : InOrder n time corrected p xs
  pub others : (a : ℕ) → a ∉ xs → corrected a ≡ previous a

-- The loop behind an event `y` that it has corrected. The events from here on are in the order of
-- the pointers `old`, which are those before the loop.
group-IsCorrected :
    (fuel n : ℕ) (next : ℕ → Ptr) (time : ℕ → ℕ) (old previous : ℕ → Ptr) (y : ℕ) (p v : Ptr)
    (xs : List ℕ)
    → Chain next p xs
    → Distinct (y ∷ xs)
    → length xs < fuel
    → previous y ≡ v
    → InOrder n time old (some y) xs
    → ((a : ℕ) → a ∈ xs → previous a ≡ old a)
    → IsCorrected n time previous
        (some y)
        xs
        (correct_same_time fuel next time (time y) v p previous)
unfolding correct_same_time
group-IsCorrected zero n next time old q y p v xs c d b e o same = absurd (omega arith)
group-IsCorrected (suc fuel) n next time old q y p v [] c d b e o same = record {
  corrected = q;
  returns = rw c refl;
  order = tt;
  others = λ a m. refl;
}
group-IsCorrected (suc fuel) n next time old q y p v (x ∷ xs) c d b e o same =
    elim (Bool-cases (time x == time y)) [
      | inl t ↦
          let at : time x ≡ time y = ground arith in
          let r =
            group-IsCorrected fuel n next time old (update q x v) x (next x) v xs c.1 d.1
              (omega arith) (ground arith) o.2 (λ a m. ground (arith, d.1.0, same a)) in
          record {
            corrected = r.corrected;
            returns =
                rw (c.0, t)
                  (subst
                    (λ k.
                      correct_same_time fuel next time k v (next x) (update q x v)
                      ≡ some r.corrected)
                    at r.returns);
            order = (
              o.0,
              ground (arith, r.others x d.1.0, r.others y (ground (arith, d.0)), e, t, d.0),
              r.order,
            );
            others = λ a m. r.others a (ground arith) ∙ ground arith;
          }
      | inr t ↦ record {
        corrected = q;
        returns = rw (c.0, t) refl;
        order = (
          o.0,
          ground (arith, o.0, o.1, same x),
          InOrder-frame n time time old q (some x) xs o.2 (λ a m. (refl, same a (ground arith))),
        );
        others = λ a m. refl;
      }
    ]

-- Whether the events with the time of `x` are those that stand directly behind `p`.
abbrev pub starts : ℕ → (ℕ → ℕ) → Ptr → ℕ → Bool
starts n time none x = true
starts n time (some y) x = if time y == time x then leb (time x) n else true

expected-starts :
    (n : ℕ) (time : ℕ → ℕ) (previous : ℕ → Ptr) (p : Ptr) (x : ℕ)
    → starts n time p x ≡ true
    → previous x ≡ p
    → previous x ≡ expected n time previous p x
expected-starts n time q none x s e = ground (arith, e)
expected-starts n time q (some y) x s e = ground (arith, e, s)

-- The loop from an event `x` on that stands directly behind `p`, at the start of those with its time.
pub correct-IsCorrected :
    (fuel n : ℕ) (next : ℕ → Ptr) (time : ℕ → ℕ) (previous : ℕ → Ptr) (q p : Ptr) (x : ℕ)
    (xs : List ℕ)
    → Chain next (some x) (x ∷ xs)
    → Distinct (x ∷ xs)
    → length (x ∷ xs) < fuel
    → InOrder n time previous q (x ∷ xs)
    → fits n time p x ≡ true
    → starts n time p x ≡ true
    → IsCorrected n time previous p
        (x ∷ xs)
        (correct_same_time fuel next time (time x) p (some x) previous)
unfolding correct_same_time
correct-IsCorrected zero n next time q₀ q p x xs c d b o f s = absurd (omega arith)
correct-IsCorrected (suc fuel) n next time q₀ q p x xs c d b o f s =
    let r =
      group-IsCorrected fuel n next time q₀ (update q₀ x p) x (next x) p xs c.1 d (omega arith)
        (ground arith) o.2 (λ a m. ground (arith, d.0)) in
    let new : r.corrected x ≡ p = r.others x d.0 ∙ ground arith in
    record {
      corrected = r.corrected;
      returns = ground (arith, r.returns);
      order = (f, expected-starts n time r.corrected p x s new, r.order);
      others = λ a m. r.others a (ground arith) ∙ ground arith;
    }

-- The loop of `enqueue` at the head, which runs as far as `previous` is null, does the same.
heads-group :
    (fuel n : ℕ) (next : ℕ → Ptr) (time : ℕ → ℕ) (old previous : ℕ → Ptr) (y : ℕ) (p v : Ptr)
    (xs : List ℕ)
    → Distinct (y ∷ xs)
    → n < time y
    → old y ≡ none
    → Chain next p xs
    → InOrder n time old (some y) xs
    → ((a : ℕ) → a ∈ xs → previous a ≡ old a)
    → correct_heads fuel next v p previous ≡ correct_same_time fuel next time (time y) v p previous
unfolding correct_same_time correct_heads
heads-group zero n next time old q y p v xs d l e c o same = refl
heads-group (suc fuel) n next time old q y p v [] d l e c o same = rw c refl
heads-group (suc fuel) n next time old q y p v (x ∷ xs) d l e c o same =
    elim (Bool-cases (time x == time y)) [
      | inl t ↦
          let at : time x ≡ time y = ground arith in
          let null : old x ≡ none = ground (arith, o.1, e, t, l) in
          let rest =
            heads-group fuel n next time old (update q x v) x (next x) v xs d.1 (omega arith) null
              c.1 o.2 (λ a m. ground (arith, d.1.0, same a)) in
          ground (
            arith,
            c.0,
            t,
            rest,
            same x,
            null,
            ap (λ k. correct_same_time fuel next time k v (next x) (update q x v)) at,
          )
      | inr t ↦
          let linked : old x ≡ some y = ground (arith, o.0, o.1, l, t) in
          ground (arith, c.0, t, same x, linked)
    ]

pub correct_heads-same :
    (fuel n : ℕ) (next : ℕ → Ptr) (time : ℕ → ℕ) (previous : ℕ → Ptr) (v : Ptr) (x : ℕ)
    (xs : List ℕ)
    → Distinct (x ∷ xs)
    → n < time x
    → Chain next (some x) (x ∷ xs)
    → InOrder n time previous none (x ∷ xs)
    → correct_heads fuel next v (some x) previous
      ≡ correct_same_time fuel next time (time x) v (some x) previous
unfolding correct_same_time correct_heads
correct_heads-same zero n next time q v x xs d l c o = refl
correct_heads-same (suc fuel) n next time q v x xs d l c o =
    let null : q x ≡ none = ground (arith, o.1, l) in
    let rest =
      heads-group fuel n next time q (update q x v) x (next x) v xs d l null c.1 o.2
        (λ a m. ground (arith, d.0)) in
    ground (arith, null, rest)

-- Where the events with one time start, the order does not rest on the event before.
pub InOrder-starts :
    (n : ℕ) (time : ℕ → ℕ) (previous previous' : ℕ → Ptr) (p : Ptr) (x : ℕ) (xs : List ℕ)
    → InOrder n time previous p (x ∷ xs)
    → starts n time p x ≡ true
    → ((a : ℕ) → a ∈ (x ∷ xs) → previous' a ≡ previous a)
    → InOrder n time previous' p (x ∷ xs)
InOrder-starts n time q q' none x xs o s same = (
  refl,
  ground (arith, o.1, same x),
  InOrder-frame n time time q q' (some x) xs o.2 (λ a m. (refl, same a (ground arith))),
)
InOrder-starts n time q q' (some y) x xs o s same = (
  o.0,
  ground (arith, o.1, s, same x),
  InOrder-frame n time time q q' (some x) xs o.2 (λ a m. (refl, same a (ground arith))),
)

pub starts-gap :
    (n : ℕ) (time : ℕ → ℕ) (previous : ℕ → Ptr) (p : Ptr) (e z : ℕ) (zs : List ℕ)
    → InOrder n time previous p (e ∷ z ∷ zs)
    → (time e == time z) ≡ false
    → starts n time p z ≡ true
starts-gap n time q none e z zs o ne = refl
starts-gap n time q (some y) e z zs o ne = ground (arith, o.0, o.2.0)
