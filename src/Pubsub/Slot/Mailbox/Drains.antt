-- ===== src/Pubsub/Slot/Mailbox/Drains.antt =====
-- A drain hands out the oldest messages in order, and asks for another turn if it leaves any.
use flash_db.Base.{
  ℕ, ◌+◌, ◌^◌, ◌≤◌, ◌<◌, ◌≡◌, ◌≢◌, refl, sym, ap, ◌∙◌, inl, inr, true, List, [], ◌∷◌, ◌++◌,
  append_assoc, append-nil, Bytes, length, leb, Bool-cases, length-append, arith,
}
use flash_db.Pubsub.Slot.Mailbox.{
  SubSlot, ring, push, drain_loop, drained_to, drain_into_limit, has_pending,
}

abbrev pub concat : List Bytes → Bytes
concat [] = []
concat (msg ∷ queue) = msg ++ concat queue

-- What a drain of `queue` behind `out` has done: `taken` was handed out, and `rest` is left.
pub record Drained (max_bytes : ℕ) (queue : List Bytes) (out out' : Bytes) (rest : List Bytes)
    : Type 0 where
  pub taken : List Bytes
  pub split : queue ≡ taken ++ rest
  pub written : out' ≡ out ++ concat taken
  pub limit : rest ≢ [] → max_bytes ≤ length out'

drain_loop-Drained :
    (max_bytes : ℕ) (queue : List Bytes) (out : Bytes)
    → let (out', drained, rest) = drain_loop max_bytes queue out in
      (d : Drained max_bytes queue out out' rest) × (drained ≡ length d.taken)
unfolding drain_loop
drain_loop-Drained max_bytes [] out = (
  record { taken = []; split = refl; written = sym (append-nil out); limit = λ n. absurd (n refl) },
  refl,
)
drain_loop-Drained max_bytes (msg ∷ queue) out =
    elim (Bool-cases (leb max_bytes (length (out ++ msg)))) [
      | inl e ↦ rw e (
        record {
          taken = msg ∷ [];
          split = refl;
          written = ap (λ m. out ++ m) (sym (append-nil msg));
          limit = λ n. ground arith;
        },
        refl,
      )
      | inr e ↦
          let (d, k) = drain_loop-Drained max_bytes queue (out ++ msg) in
          rw e (
            record {
              taken = msg ∷ d.taken;
              split = ap (λ q. msg ∷ q) d.split;
              written = d.written ∙ append_assoc out msg (concat d.taken);
              limit = d.limit;
            },
            omega (arith, k),
          )
    ]

-- The counter is the length of the queue, and messages wait only with the flag set.
abbrev pub IsReady : SubSlot → Type 0
IsReady s = (s.len ≡ length s.queue) × (has_pending s ≡ true → s.notify_pending ≡ true)

push-IsReady :
    (s : SubSlot) (msg : Bytes) → length s.queue + 1 < 2 ^ 64 → IsReady s → IsReady (push s msg)
unfolding push ring
push-IsReady s msg b h = (ground (arith, length-append s.queue (msg ∷ []), h.0), λ p. refl)

drained_to-IsReady :
    (s : SubSlot) (drained : ℕ) (queue : List Bytes)
    → s.len ≡ drained + length queue
    → s.len < 2 ^ 64
    → IsReady (drained_to s drained queue)
unfolding drained_to ring has_pending
drained_to-IsReady s drained [] e b = (ground arith, λ p. cc)
drained_to-IsReady s drained (msg ∷ queue) e b = (ground arith, λ p. refl)

drain_into_limit-IsReady :
    (s : SubSlot) (out : Bytes) (max_bytes : ℕ)
    → length s.queue < 2 ^ 64
    → IsReady s
    → IsReady (drain_into_limit s out max_bytes).0
unfolding drain_into_limit
drain_into_limit-IsReady s out max_bytes b h =
    let (d, k) = drain_loop-Drained max_bytes s.queue out in
    let (out', drained, queue) = drain_loop max_bytes s.queue out in
    drained_to-IsReady s drained queue
      (omega (arith, h.0, k, ap length d.split, length-append d.taken queue)) (omega (arith, h.0))

-- `push` and `drain_into_limit` keep the mailbox's counter equal to the length of its queue, and
-- its flag set while a message waits, provided that the queue is shorter than 2 ^ 64 - 1.
pub mailbox-IsReady :
    (s : SubSlot) (msg out : Bytes) (max_bytes : ℕ)
    → length s.queue + 1 < 2 ^ 64
    → IsReady s
    → IsReady (push s msg) × IsReady (drain_into_limit s out max_bytes).0
mailbox-IsReady s msg out max_bytes b h =
    (push-IsReady s msg b h, drain_into_limit-IsReady s out max_bytes (omega arith) h)
