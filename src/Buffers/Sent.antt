-- ===== src/Buffers/Sent.antt =====
-- What the double buffer of channels/include/channels/doubleBuffer.h delivers.
use tasking_framework.Buffers.{Address, inside, outside, DoubleBuffer}

module _ {ℓ} {T : Type ℓ} where
  -- What a pointer refers to.
  abbrev pub value_at : DoubleBuffer T → Address T → T
  value_at b (inside index) = b.data_at index
  value_at b (outside value) = value
