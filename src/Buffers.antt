-- ===== src/Buffers.antt =====
-- channels/include/channels/doubleBuffer.h and channels/include/channels/singleBuffer.h: channels
-- that keep the last value sent. A pointer to data is an address: an index of the buffer's own
-- array, or a place outside of it, which holds a value. The call of `push`, which stands at the end
-- of each `send`, is that of the channel.
pub mod Sent
use tasking_framework.Base.{ℕ, zero, suc, ◌+◌, ◌%◌, Bool, true, false, update, ◌==◌, if◌then◌else◌}

pub data Address {ℓ} (T : Type ℓ) : Type ℓ where
  inside : ℕ → Address T
  outside : T → Address T

pub record DoubleBuffer {ℓ} (T : Type ℓ) : Type ℓ where
  pub data_at : ℕ → T
  pub back_index : ℕ

module _ {ℓ} {T : Type ℓ} where
  -- The constructors with an initial value, which `initBuffer` copies into both elements.
  unfoldable pub init_buffer : T → DoubleBuffer T
  init_buffer initial = record { data_at = λ index. initial; back_index = 1 }

  -- The index of the element that `read` refers to.
  unfoldable pub valid_index : DoubleBuffer T → ℕ
  valid_index b = (b.back_index + 1) % 2

  -- `DoubleBuffer::read`.
  unfoldable pub read : DoubleBuffer T → T
  unfolding valid_index
  read b = b.data_at (valid_index b)

  switch_over : DoubleBuffer T → DoubleBuffer T
  switch_over b = record b { back_index = (b.back_index + 1) % 2 }

  -- `DoubleBuffer::send` of a value.
  unfoldable pub send : T → DoubleBuffer T → DoubleBuffer T
  unfolding switch_over
  send value b = switch_over (record b { data_at = update b.data_at b.back_index value })

  load : DoubleBuffer T → Address T → T
  load b (inside index) = b.data_at index
  load b (outside value) = value

  is_back : DoubleBuffer T → Address T → Bool
  is_back b (inside index) = index == b.back_index
  is_back b (outside value) = false

  -- `DoubleBuffer::send` of a pointer, which copies nothing if it points to the back buffer.
  unfoldable pub send_pointer : Address T → DoubleBuffer T → DoubleBuffer T
  unfolding switch_over load is_back
  send_pointer p b =
      switch_over
        (if is_back b p then b else record b { data_at = update b.data_at b.back_index (load b p) })

  -- `DoubleBuffer::getBuffer`.
  unfoldable pub get_buffer : DoubleBuffer T → Address T
  get_buffer b = inside b.back_index
