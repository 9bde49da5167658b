-- ===== src/Pubsub/Slot/Mailbox.antt =====
-- src/pubsub/slot.rs, continued: the mailbox of a subscriber, one method at a time. `notified` counts
-- the calls of `notify` on the worker's notifier.
pub mod Drains
use flash_db.Base.{
  ℕ, zero, suc, ◌+◌, ◌-◌, ◌%◌, ◌^◌, Bool, true, false, not, ◌&&◌, List, [], ◌∷◌, ◌++◌, Bytes,
  length, leb, ◌==◌, if◌then◌else◌,
}

pub record SubSlot : Type 0 where
  pub queue : List Bytes
  pub notify_pending : Bool
  pub len : ℕ
  pub notified : ℕ

unfoldable pub new : SubSlot
new = record { queue = []; notify_pending = false; len = 0; notified = 0 }

-- `if !self.notify_pending.swap(true) { self.notifier.notify(self.token) }`
unfoldable pub ring : SubSlot → SubSlot
ring s = record s {
  notify_pending = true;
  notified = if s.notify_pending then s.notified else s.notified + 1;
}

unfoldable pub push : SubSlot → Bytes → SubSlot
push s msg = ring (record s { len = (s.len + 1) % 2 ^ 64; queue = s.queue ++ msg ∷ [] })

abbrev pub is_empty : List Bytes → Bool
is_empty [] = true
is_empty (msg ∷ queue) = false

-- The loop: the output, how many messages were drained, and the queue.
unfoldable pub drain_loop : ℕ → List Bytes → Bytes → Bytes × ℕ × List Bytes
drain_loop max_bytes [] out = (out, 0, [])
drain_loop max_bytes (msg ∷ queue) out =
    let (out', drained, rest) = drain_loop max_bytes queue (out ++ msg) in
    if leb max_bytes (length (out ++ msg))
    then (out ++ msg, 1, queue)
    else (out', drained + 1, rest)

-- What follows the loop.
unfoldable pub drained_to : SubSlot → ℕ → List Bytes → SubSlot
drained_to s drained queue =
    let len = if drained == 0 then s.len else (s.len + 2 ^ 64 - drained) % 2 ^ 64 in
    let s' = record s { notify_pending = false; len = len; queue = queue } in
    if is_empty queue then s' else ring s'

unfoldable pub drain_into_limit : SubSlot → Bytes → ℕ → SubSlot × Bytes
drain_into_limit s out max_bytes =
    let (out', drained, queue) = drain_loop max_bytes s.queue out in
    (drained_to s drained queue, out')

-- `usize::MAX` is no limit.
unfoldable pub drain_into : SubSlot → Bytes → SubSlot × Bytes
drain_into s out = drain_into_limit s out (2 ^ 64 - 1)

unfoldable pub has_pending : SubSlot → Bool
has_pending s = not (is_empty s.queue)

unfoldable pub queue_len : SubSlot → ℕ
queue_len s = s.len
