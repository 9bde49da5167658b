-- ===== src/Pubsub/Slot/Tests.antt =====
-- The theorems on the notifier and the mailbox at small runs.
use flash_db.Base.{◌<◌, ◌≡◌, ◌≢◌, ◌⊎◌, refl, ap, true, [], ◌∷◌, codes, length, arith}
use flash_db.Pubsub.Slot
use flash_db.Pubsub.Slot.{
  WorkerNotifier, parked, Steps, pushes, announces, done, more, push_token, announce,
}
use flash_db.Pubsub.Slot.Wakes.{no_lost_wake}
use flash_db.Pubsub.Slot.Mailbox.{SubSlot}

abbrev pushed : WorkerNotifier
pushed = push_token Slot.new 7

one_push : Steps Slot.new pushed
one_push = more Slot.new pushed pushed (pushes Slot.new 7) (done pushed)

still_parked : pushed.phase ≡ parked
unfolding push_token Slot.new
still_parked = refl

pending_token : pushed.pending ≢ []
unfolding push_token Slot.new
pending_token e = absurd (omega (arith, ap length e))

no_lost_wake_example : (0 < pushed.announcing) ⊎ (0 < pushed.owed) ⊎ (pushed.delivered ≡ true)
no_lost_wake_example = no_lost_wake one_push still_parked pending_token

abbrev waiting : SubSlot
waiting = record {
  queue = codes "one" ∷ codes "two" ∷ [];
  notify_pending = true;
  len = 2;
  notified = 1;
}
