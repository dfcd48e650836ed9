-- ===== src/System/Sending.antt =====
-- channels/include/channels/singleBuffer.h and channels/src/signalChannel.cpp: channels that an
-- application pushes, and the data that a single buffer keeps. A pointer to data is the buffer of a
-- channel, or a place outside of all buffers, which holds a value.
use tasking_framework.Base.{
  ℕ, ◌≡◌, ◌≤◌, ◌∙◌, ap, refl, inl, inr, Bool, false, Bool-cases, Option, some, List, arith, update,
  ◌==◌, if◌then◌else◌, Chain, Distinct, length, has,
}
use tasking_framework.Buffers.{Address, inside, outside}
use tasking_framework.Input.{notify}
use tasking_framework.Policy.Interface.{SchedulePolicy}
use tasking_framework.System.World.{World, Platform}
use tasking_framework.System.Activation.{push}
use tasking_framework.System.Queued.{IsQueued}
use tasking_framework.System.Push.{next_input, Connected, push-Notifies}

-- The data of the single buffers, by the numbers of their channels, and the rest outside.
pub record Stored (T U : Type 0) : Type 0 where
  pub data_of : ℕ → T
  pub user : U

module _ (policy : SchedulePolicy) {T U : Type 0} (platform : Platform (Stored T U)) where
  open policy use {State}

  -- `SignalChannel::trigger`.
  unfoldable pub trigger : ℕ → World State (Stored T U) → Option (World State (Stored T U))
  trigger c w = push policy platform c w

  -- `SingleBuffer::read`.
  unfoldable pub read : ℕ → World State (Stored T U) → T
  read c w = w.rest.data_of c

  unfoldable pub store : ℕ → T → World State (Stored T U) → World State (Stored T U)
  store c value w = record w { rest = record w.rest { data_of = update w.rest.data_of c value } }

  -- `SingleBuffer::send` of a value.
  unfoldable pub send : ℕ → T → World State (Stored T U) → Option (World State (Stored T U))
  unfolding store
  send c value w = push policy platform c (store c value w)

  unfoldable pub load : Address T → World State (Stored T U) → T
  load (inside d) w = w.rest.data_of d
  load (outside value) w = value

  unfoldable pub is_own : ℕ → Address T → Bool
  is_own c (inside d) = d == c
  is_own c (outside value) = false

  -- `SingleBuffer::send` of a pointer, which copies nothing if it points to the own buffer.
  unfoldable pub send_pointer :
      ℕ → Address T → World State (Stored T U) → Option (World State (Stored T U))
  unfolding is_own store load
  send_pointer c p w = push policy platform c (if is_own c p then w else store c (load p w) w)

  -- `SingleBuffer::getBuffer`.
  unfoldable pub get_buffer : ℕ → Address T
  get_buffer c = inside c

  -- What the buffers hold when the inputs are notified.
  abbrev pub Sends : ℕ → T → World State (Stored T U) → World State (Stored T U) → Type 0
  Sends c value w w' = (d : ℕ) → read d w' ≡ (if d == c then value else read d w)

  stored : ℕ → Address T → World State (Stored T U) → World State (Stored T U)
  stored c p w = if is_own c p then w else store c (load p w) w

  stored-Sends :
      (c : ℕ) (p : Address T) (w : World State (Stored T U)) → Sends c (load p w) w (stored c p w)
  unfolding stored is_own store load read
  stored-Sends c (inside e) w d = ground arith
  stored-Sends c (outside value) w d = refl

  stored-frame :
      (c : ℕ) (p : Address T) (w : World State (Stored T U))
      → stored c p w ≡ record w { rest = (stored c p w).rest }
  unfolding stored store
  stored-frame c p w = elim (Bool-cases (is_own c p)) [ inl y ↦ rw y refl | inr n ↦ rw n refl ]

  -- `send` of a pointer returns. The channel's buffer holds what the pointer referred to before and
  -- no other buffer has changed; each input of the channel is notified once and no other is touched,
  -- and no task is in the run queue twice. The channel's inputs belong to tasks of the application.
  pub send_pointer-Notifies :
      (c : ℕ) (p : Address T) (is : List ℕ) (w : World State (Stored T U)) (xs : List ℕ)
      → IsQueued policy platform w xs
      → Chain (next_input w) (w.channels c).inputs is
      → Distinct is
      → Connected policy platform w is
      → length is ≤ platform.inputs
      → (w' : World State (Stored T U)) × (ys : List ℕ) × (send_pointer c p w ≡ some w')
        × Sends c (load p w) w w'
        × ((i : ℕ) → w'.inputs i ≡ (if has i is then (notify (w.inputs i)).0 else w.inputs i))
        × IsQueued policy platform w' ys
  unfolding send_pointer stored read
  send_pointer-Notifies c p is w xs q chain once owned short =
      let v = record w { rest = (stored c p w).rest } in
      let (w', done, n) =
        push-Notifies policy platform c is v xs (record { holds = q.holds; in_run = q.in_run })
          chain once owned short in
      (
        w',
        n.queue,
        ap (push policy platform c) (stored-frame c p w) ∙ done,
        λ d. ap (λ r. r.data_of d) n.rest ∙ stored-Sends c p w d,
        n.inputs,
        n.queued,
      )
