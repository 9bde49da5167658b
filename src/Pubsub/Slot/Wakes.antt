-- ===== src/Pubsub/Slot/Wakes.antt =====
-- No token is left in the queue without a wake-up, and none is lost or reordered.
use flash_db.Base.{
  ℕ, ◌<◌, ◌≡◌, ◌≢◌, ◌⊎◌, inl, inr, refl, Bool, true, false, List, [], ◌∷◌, ◌++◌, Bool-cases, arith,
}
use flash_db.Pubsub.Slot.{
  Phase, parked, popping, storing, checking, claiming, WorkerNotifier, new, push_token, announce,
  wake, resume, popped, pop_token, store_false, checked, check_empty, claim, Step, pushes,
  announces, wakes, resumes, pops, stores, checks, claims, Steps, done, more,
}

-- Whether the worker will still clear the flag and look at the queue.
abbrev pub drains : Phase → Bool
drains parked = false
drains popping = true
drains storing = true
drains checking = false
drains claiming = false

abbrev pub is_parked : Phase → Bool
is_parked parked = true
is_parked popping = false
is_parked storing = false
is_parked checking = false
is_parked claiming = false

-- A set flag has a wake-up on its way or a worker that will clear it; and tokens behind a clear flag have
-- a publisher that will set it or a worker that is at work.
pub record IsAwake (n : WorkerNotifier) : Type 0 where
  pub flagged :
      n.wake_pending ≡ true → (0 < n.owed) ⊎ (n.delivered ≡ true) ⊎ (drains n.phase ≡ true)
  pub queued :
      n.wake_pending ≡ false → n.pending ≢ [] → (0 < n.announcing) ⊎ (is_parked n.phase ≡ false)

parked_lem : (n : WorkerNotifier) → n.phase ≡ parked → is_parked n.phase ≡ false → ⊥
parked_lem n p b = cc

-- Behind the store a set flag has a wake-up on its way.
on_its_way :
    (n : WorkerNotifier)
    → IsAwake n
    → drains n.phase ≡ false
    → n.wake_pending ≡ true
    → (0 < n.owed) ⊎ (n.delivered ≡ true)
on_its_way n h d f = elim (h.flagged f) [ inl a ↦ inl a | inr (inl a) ↦ inr a | inr (inr a) ↦ cc ]

awaited : {A B C : Type 0} → A ⊎ B → A ⊎ B ⊎ C
awaited (inl a) = inl a
awaited (inr b) = inr (inl b)

popped-IsAwake :
    (n : WorkerNotifier) (xs : List ℕ) → n.phase ≡ popping → IsAwake n → IsAwake (popped n xs)
unfolding popped
popped-IsAwake n [] p h = record { flagged = λ f. inr (inr refl); queued = λ f q. inr refl }
popped-IsAwake n (token ∷ rest) p h = record {
  flagged = λ f. inr (inr (rw p refl));
  queued = λ f q. inr (rw p refl);
}

checked-IsAwake :
    (n : WorkerNotifier) (xs : List ℕ)
    → n.pending ≡ xs
    → n.phase ≡ checking
    → IsAwake n
    → IsAwake (checked n xs)
unfolding checked
checked-IsAwake n [] e p h = record {
  flagged = λ f. awaited (on_its_way n h (rw p refl) f);
  queued = λ f q. absurd (q e);
}
checked-IsAwake n (token ∷ rest) e p h = record {
  flagged = λ f. awaited (on_its_way n h (rw p refl) f);
  queued = λ f q. inr refl;
}

announce-IsAwake : (n : WorkerNotifier) → IsAwake n → IsAwake (announce n)
unfolding announce
announce-IsAwake n h = record {
  flagged = λ f. elim (Bool-cases n.wake_pending) [
    | inl e ↦ rw e (h.flagged e)
    | inr e ↦ inl (rw e (omega arith))
  ];
  queued = λ f. cc;
}

claim-IsAwake : (n : WorkerNotifier) → n.phase ≡ claiming → IsAwake n → IsAwake (claim n)
unfolding claim
claim-IsAwake n p h = record {
  flagged = λ f. elim (Bool-cases n.wake_pending) [
    | inl e ↦ awaited (on_its_way n h (rw p refl) e)
    | inr e ↦ inr (inr (rw e refl))
  ];
  queued = λ f. cc;
}

Step-IsAwake : {n m : WorkerNotifier} → Step n m → IsAwake n → IsAwake m
unfolding push_token wake resume pop_token store_false check_empty
Step-IsAwake (pushes n token) h = record { flagged = h.flagged; queued = λ f q. inl (omega arith) }
Step-IsAwake (announces n a) h = announce-IsAwake n h
Step-IsAwake (wakes n a) h = record { flagged = λ f. inr (inl refl); queued = h.queued }
Step-IsAwake (resumes n p d) h = record { flagged = λ f. inr (inr refl); queued = λ f q. inr refl }
Step-IsAwake (pops n p) h = popped-IsAwake n n.pending p h
Step-IsAwake (stores n p) h = record { flagged = λ f. cc; queued = λ f q. inr refl }
Step-IsAwake (checks n p) h = checked-IsAwake n n.pending refl p h
Step-IsAwake (claims n p) h = claim-IsAwake n p h

Steps-IsAwake : {n m : WorkerNotifier} → Steps n m → IsAwake n → IsAwake m
Steps-IsAwake (done n) h = h
Steps-IsAwake (more n m k a rest) h = Steps-IsAwake rest (Step-IsAwake a h)

new-IsAwake : IsAwake new
unfolding new
new-IsAwake = record { flagged = λ f. cc; queued = λ f q. absurd (q refl) }

-- However the publishers' calls of `notify` and the worker's `drain_pending_into` interleave from a
-- new notifier on: when the worker is parked and a token is pending, a publisher has still to swap
-- the flag, a call of `wake` is due, or the poll has a wake-up to return.
pub no_lost_wake :
    {n : WorkerNotifier}
    → Steps new n
    → n.phase ≡ parked
    → n.pending ≢ []
    → (0 < n.announcing) ⊎ (0 < n.owed) ⊎ (n.delivered ≡ true)
no_lost_wake {n} steps p q =
    let h = Steps-IsAwake steps new-IsAwake in
    elim (Bool-cases n.wake_pending) [
      | inl e ↦ inr (on_its_way n h (rw p refl) e)
      | inr e ↦ elim (h.queued e q) [ inl a ↦ inl a | inr b ↦ absurd (parked_lem n p b) ]
    ]

-- A token
pub record Conserved (n m : WorkerNotifier) : Type 0 where
  pub tokens : List ℕ
  pub conserved : m.out ++ m.pending ≡ (n.out ++ n.pending) ++ tokens
