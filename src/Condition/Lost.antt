-- ===== src/Condition/Lost.antt =====
-- The second critical section of `notify_one` when `to_resume` has been filled meanwhile.
use co_context.Condition.{Condition}
