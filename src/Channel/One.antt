-- ===== src/Channel/One.antt =====
-- include/co_context/co/channel.hpp, `channel<T, 1>`.
use co_context.Prelude.{Bool, true, false, Option, none, some}
use co_context.Channel.{Outcome, waits, done}

-- `channel<T, 1>` keeps an optional item.
module _ {ℓ} {T : Type ℓ} where
  unfoldable pub has_value : Option T → Bool
  has_value none = false
  has_value (some x) = true

  unfoldable pub drop : Option T → Outcome (Option T)
  drop none = waits
  drop (some x) = done none

  unfoldable pub acquire : Option T → Outcome (T × Option T)
  acquire none = waits
  acquire (some x) = done (x, none)

  unfoldable pub release : T → Option T → Outcome (Option T)
  release x none = done (some x)
  release x (some y) = waits
