-- ===== src/System/Connected/Association.antt =====
-- Theorems on `associate` and `deassociate` of src/taskInput.cpp, which keep the lists of the
-- channels and the inputs' pointers to their channels in step.
use tasking_framework.Base.{
  is_null, Option-cases, ◌||◌, remove-absent, ℕ, suc, ◌≡◌, ◌<◌, refl, sym, true, false, none, some,
  List, ◌∷◌, arith, same_ptr, update, if◌then◌else◌, inl, inr, ◌∉◌, ◌∈◌, remove, remove-Distinct,
  Below-remove, not-mem-remove,
}
use tasking_framework.System.World.{World, Platform}
use tasking_framework.System.Wiring.{associate_to, associate, deassociate_at, deassociate}
use tasking_framework.System.Members.{
  Members, in_list-has, put_in_front, put_in_front-Members, leave-Left,
}
use tasking_framework.System.Connected.{
  has-remove-other, by_channel, IsConnected, short, pointed, pointed-Members, Members-apart,
  same-IsConnected,
}

module _ {Q E : Type 0} (platform : Platform E) where
  -- An input that has no channel joins the list of the channel at its front.
  associate_free-IsConnected :
      (i c : ℕ) (w : World Q E) (lists : ℕ → List ℕ)
      → IsConnected platform w lists
      → i < platform.inputs
      → (w.inputs i).channel ≡ none
      → (w' : World Q E) × (associate platform i c w ≡ some (w', true))
        × IsConnected platform w' (update lists c (i ∷ lists c))
  unfolding associate associate_to
  associate_free-IsConnected i c w lists k b free =
      let p = pointed platform i (some c) w in
      let h = pointed-Members platform i c (some c) w (lists c) (k.listed c) in
      let out : i ∉ lists c = ground (arith, k.owned c i) in
      let bound = short platform w lists k c in
      let w' = put_in_front platform c i p in
      (
        w',
        rw
            (
              in_list-has platform (suc platform.inputs) i (w.channels c).inputs p (lists c) h
                  (omega (arith, bound)),
              out,
            )
            refl,
        record {
          listed =
              by_channel (Members platform w') lists c (i ∷ lists c)
                (put_in_front-Members platform c i p (lists c) h out)
                (λ d ne.
                  Members-apart platform d w w' (lists d) (ground arith)
                    (λ a m. ground (arith, k.owned d i)) (k.listed d));
          once = λ d. ground (arith, k.once d, k.once c, out);
          known = λ d. ground (arith, k.known d, k.known c, b);
          owned = λ d a. ground (arith, k.owned d a, k.owned c a, k.owned d i);
        },
      )

  -- An input that has a channel leaves the channel's list.
  deassociate_joined-IsConnected :
      (i c : ℕ) (w : World Q E) (lists : ℕ → List ℕ)
      → IsConnected platform w lists
      → (w.inputs i).channel ≡ some c
      → (w' : World Q E) × (deassociate platform i w ≡ some w')
        × ((w'.inputs i).channel ≡ none)
        × IsConnected platform w' (update lists c (remove i (lists c)))
  unfolding deassociate deassociate_at
  deassociate_joined-IsConnected i c w lists k at =
      let m : i ∈ lists c = ground (arith, k.owned c i) in
      let (v, r, left) =
        leave-Left platform c i w (lists c) (k.listed c) (k.once c) (short platform w lists k c)
          m in
      let w' = pointed platform i none v in
      (
        w',
        ground (arith, r, at),
        ground arith,
        record {
          listed =
              by_channel (Members platform w') lists c (remove i (lists c))
                (pointed-Members platform i c none v (remove i (lists c)) left.members)
                (λ d ne.
                  Members-apart platform d w w' (lists d) (ground (arith, left.others d))
                    (λ a m. ground (arith, left.apart a, k.owned d a, k.owned c a)) (k.listed d));
          once = λ d. ground (arith, k.once d, remove-Distinct i (lists c) (k.once c));
          known =
              λ d. ground (arith, k.known d, Below-remove platform.inputs i (lists c) (k.known c));
          owned = λ d a. ground (
            arith,
            at,
            left.kept a,
            k.owned d a,
            k.owned c a,
            k.owned d i,
            has-remove-other i a (lists c),
            not-mem-remove i (lists c) (k.once c),
          );
        },
      )

  -- Where every channel's list holds exactly the inputs that point to the channel, `deassociate`
  -- of any input succeeds and takes the input out of every list, so that it has no channel; the
  -- lists still hold exactly the inputs that point to their channels.
  pub deassociate-IsConnected :
      (i : ℕ) (w : World Q E) (lists : ℕ → List ℕ)
      → IsConnected platform w lists
      → (w' : World Q E) × (deassociate platform i w ≡ some w')
        × ((w'.inputs i).channel ≡ none)
        × IsConnected platform w' (λ c. remove i (lists c))
  unfolding deassociate deassociate_at
  deassociate-IsConnected i w lists k = elim (Option-cases (w.inputs i).channel) [
    | inl free ↦ (
      w,
      rw free refl,
      free,
      same-IsConnected platform w lists (λ c. remove i (lists c))
          (λ c. sym (remove-absent i (lists c) (ground (arith, k.owned c i)))) k,
    )
    | inr (c, at) ↦
        let (w', r, gone, left) = deassociate_joined-IsConnected i c w lists k at in
        (
          w',
          r,
          gone,
          same-IsConnected platform w' (update lists c (remove i (lists c)))
              (λ d. remove i (lists d))
              (by_channel (λ d l. l ≡ remove i (lists d)) lists c (remove i (lists c)) refl
                (λ d ne. sym (remove-absent i (lists d) (ground (arith, k.owned d i)))))
              left,
        )
  ]

  again-IsConnected :
      (i c : ℕ) (w : World Q E) (lists : ℕ → List ℕ)
      → IsConnected platform w lists
      → i < platform.inputs
      → (w.inputs i).channel ≡ some c
      → (w' : World Q E) × (associate platform i c w ≡ some (w', false))
        × IsConnected platform w' lists
  unfolding associate associate_to
  again-IsConnected i c w lists k b at =
      let w' = pointed platform i (some c) w in
      let h = pointed-Members platform i c (some c) w (lists c) (k.listed c) in
      let m : i ∈ lists c = ground (arith, k.owned c i) in
      let bound = short platform w lists k c in
      (
        w',
        rw
            (
              in_list-has platform (suc platform.inputs) i (w.channels c).inputs w' (lists c) h
                  (omega (arith, bound)),
              m,
            )
            refl,
        record {
          listed = λ d. pointed-Members platform i d (some c) w (lists d) (k.listed d);
          once = k.once;
          known = k.known;
          owned = λ d a. ground (arith, k.owned d a, k.owned d i);
        },
      )

  -- Where every channel's list holds exactly the inputs that point to the channel, `associate` of
  -- an input that has no channel, or this one already, succeeds: an input without channel is put in
  -- front of the channel's list, and the answer is true; otherwise the lists stay and the answer is
  -- false. The lists still hold exactly the inputs that point to their channels.
  pub associate-IsConnected :
      (i c : ℕ) (w : World Q E) (lists : ℕ → List ℕ)
      → IsConnected platform w lists
      → i < platform.inputs
      → (is_null (w.inputs i).channel || same_ptr (some c) (w.inputs i).channel) ≡ true
      → (w' : World Q E) × (associate platform i c w ≡ some (w', is_null (w.inputs i).channel))
        × IsConnected platform w'
            (if is_null (w.inputs i).channel then update lists c (i ∷ lists c) else lists)
  associate-IsConnected i c w lists k b own = elim (Option-cases (w.inputs i).channel) [
    | inl free ↦ rw free (associate_free-IsConnected i c w lists k b free)
    | inr (d, at) ↦
        let here : (w.inputs i).channel ≡ some c = ground (arith, own, at) in
        rw here (again-IsConnected i c w lists k b here)
  ]
