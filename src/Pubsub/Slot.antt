-- ===== src/Pubsub/Slot.antt =====
-- src/pubsub/slot.rs: the notifier of a worker, which any number of publishers call while the worker
-- drains it. Each access to the queue, to `wake_pending` and to the waker is one step.
pub mod Wakes
pub mod Mailbox
mod Tests
use flash_db.Base.{
  ℕ, zero, suc, ◌+◌, ◌-◌, ◌<◌, ◌≡◌, Bool, true, false, List, [], ◌∷◌, ◌++◌, if◌then◌else◌,
}

-- Where the worker is: outside `drain_pending_into`, or before the access of that name in it.
pub data Phase : Type 0 where
  parked popping storing checking claiming : Phase

pub record WorkerNotifier : Type 0 where
  -- a queue with its front first
  pub pending : List ℕ
  pub wake_pending : Bool
  -- the publishers that have pushed their token and not swapped `wake_pending` yet
  pub announcing : ℕ
  -- the calls of `wake` that are due, and whether the poll has one to return
  pub owed : ℕ
  pub delivered : Bool
  pub phase : Phase
  pub out : List ℕ

unfoldable pub new : WorkerNotifier
new = record {
  pending = [];
  wake_pending = false;
  announcing = 0;
  owed = 0;
  delivered = false;
  phase = parked;
  out = [];
}

-- `notify`: the push, the swap, and the call of `wake` if the flag was clear.
unfoldable pub push_token : WorkerNotifier → ℕ → WorkerNotifier
push_token n token = record n { pending = n.pending ++ token ∷ []; announcing = n.announcing + 1 }

unfoldable pub announce : WorkerNotifier → WorkerNotifier
announce n = record n {
  announcing = n.announcing - 1;
  wake_pending = true;
  owed = if n.wake_pending then n.owed else n.owed + 1;
}

unfoldable pub wake : WorkerNotifier → WorkerNotifier
wake n = record n { owed = n.owed - 1; delivered = true }

-- The poll returns and the worker calls `drain_pending_into`.
unfoldable pub resume : WorkerNotifier → WorkerNotifier
resume n = record n { delivered = false; phase = popping }

-- One round of `while let Some(token) = self.pending.pop()`, by what is pending.
unfoldable pub popped : WorkerNotifier → List ℕ → WorkerNotifier
popped n [] = record n { phase = storing }
popped n (token ∷ rest) = record n { pending = rest; out = n.out ++ token ∷ [] }

unfoldable pub pop_token : WorkerNotifier → WorkerNotifier
pop_token n = popped n n.pending

unfoldable pub store_false : WorkerNotifier → WorkerNotifier
store_false n = record n { wake_pending = false; phase = checking }

-- `if self.pending.is_empty()`, by what is pending.
unfoldable pub checked : WorkerNotifier → List ℕ → WorkerNotifier
checked n [] = record n { phase = parked }
checked n (token ∷ rest) = record n { phase = claiming }

unfoldable pub check_empty : WorkerNotifier → WorkerNotifier
check_empty n = checked n n.pending

unfoldable pub claim : WorkerNotifier → WorkerNotifier
claim n = record n { wake_pending = true; phase = if n.wake_pending then parked else popping }

-- One step of a publisher or of the worker, where it is due.
pub data Step : WorkerNotifier → WorkerNotifier → Type 0 where
  pushes : (n : WorkerNotifier) (token : ℕ) → Step n (push_token n token)
  announces : (n : WorkerNotifier) → 0 < n.announcing → Step n (announce n)
  wakes : (n : WorkerNotifier) → 0 < n.owed → Step n (wake n)
  resumes : (n : WorkerNotifier) → n.phase ≡ parked → n.delivered ≡ true → Step n (resume n)
  pops : (n : WorkerNotifier) → n.phase ≡ popping → Step n (pop_token n)
  stores : (n : WorkerNotifier) → n.phase ≡ storing → Step n (store_false n)
  checks : (n : WorkerNotifier) → n.phase ≡ checking → Step n (check_empty n)
  claims : (n : WorkerNotifier) → n.phase ≡ claiming → Step n (claim n)

pub data Steps : WorkerNotifier → WorkerNotifier → Type 0 where
  done : (n : WorkerNotifier) → Steps n n
  more : (n m k : WorkerNotifier) → Step n m → Steps m k → Steps n k
