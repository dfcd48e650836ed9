-- ===== src/FifoChannel/Lost.antt =====
-- `releaseReader` of channels/src/fifoGeneric.cpp, and the next `push`.
use tasking_framework.Base.{
  ℕ, suc, ◌≡◌, refl, ap, sym, ◌∙◌, false, Option, none, some, arith, Ptr, same_ptr, is_null,
  if◌then◌else◌, ◌>>=◌, inl, inr, Bool-cases,
}
use mathlib.Core.Option.{some-injective}
use tasking_framework.FifoChannel.{push, take_out, append, set_reads}
use tasking_framework.FifoChannel.Reader.{release_all}
use tasking_framework.FifoChannel.Readers.{
  Shared, search_reader, unlink_behind, unlink_head, unlink_reader, release_unread, release_reader,
  set_reader,
}

>>=-eq-some {ℓ κ} :
    {A : Type ℓ} {B : Type κ} (m : Option A) (f : A → Option B) {b : B}
    → (m >>= f) ≡ some b
    → (a : A) × (m ≡ some a) × (f a ≡ some b)
>>=-eq-some none f e = cc
>>=-eq-some (some a) f e = (a, refl, e)

module _ (items links readers : ℕ) where
  unlink_behind-last :
      (r : ℕ) (p : Ptr) (c : Shared)
      → (unlink_behind items links readers r p c).fifo.fifo_last ≡ c.fifo.fifo_last
  unfolding unlink_behind
  unlink_behind-last r none c = refl
  unlink_behind-last r (some current) c = refl

  unlink_reader-last :
      (r : ℕ) (c c' : Shared)
      → unlink_reader items links readers r c ≡ some c'
      → c'.fifo.fifo_last ≡ c.fifo.fifo_last
  unfolding unlink_reader unlink_head
  unlink_reader-last r c c' e = elim (Bool-cases (same_ptr (some r) c.fifo.readers)) [
    | inl y ↦
        let e' : some (unlink_head items links readers r c) ≡ some c' = rw y at e in
        ap (λ (k : Shared). k.fifo.fifo_last)
          (sym (some-injective (unlink_head items links readers r c) c' e'))
    | inr n ↦
        let (p, _, e') =
          >>=-eq-some (search_reader items links readers (suc readers) r c.fifo.readers c)
            (λ p. some (unlink_behind items links readers r p c)) (rw n at e) in
        ap (λ (k : Shared). k.fifo.fifo_last)
          (sym (some-injective (unlink_behind items links readers r p c) c' e'))
        ∙ unlink_behind-last r p c
  ]

  release_reader-last :
      (r : ℕ) (c c' : Shared)
      → release_reader items links readers r c ≡ some c'
      → c'.fifo.fifo_last ≡ none
  unfolding release_reader
  release_reader-last r c c' e =
      let (a, _, e₁) = >>=-eq-some (release_all items links c.fifo (c.readers r)) _ e in
      let (s, _, e₂) =
        >>=-eq-some
          (release_unread items links readers (suc items) a.1.reader_id
            (if is_null a.1.fifo_first then a.0.fifo_first else a.1.fifo_first) a.0)
          _ e₁ in
      unlink_reader-last r
        (set_reader r (record a.1 { fifo_first = none; is_associated = false })
          (record c { fifo = record s { fifo_last = none } }))
        c' e₂

  -- When a reader is released while the FIFO still has an element, which another reader has not read,
  -- the FIFO has no last element, and the next `push` of an allocated element goes through a null
  -- pointer.
  pub push-release_reader :
      (r d x : ℕ) (c c' : Shared)
      → release_reader items links readers r c ≡ some c'
      → c'.fifo.fifo_first ≡ some x
      → c'.fifo.allocated ≡ some d
      → push items d c'.fifo ≡ none
  unfolding push take_out append set_reads
  push-release_reader r d x c c' e first allocated =
      ground (arith, release_reader-last r c c' e, first, allocated)
