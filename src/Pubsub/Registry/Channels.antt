-- ===== src/Pubsub/Registry/Channels.antt =====
-- The channels of the registry as a function from a channel's name to its subscribers.
use flash_db.Base.{
  ℕ, ◌≡◌, refl, ap, inl, inr, Bool, true, false, List, [], ◌∷◌, ◌++◌, Bytes, length, ◌=ₛ◌, eq_iff,
  eq_refl, if◌then◌else◌, Bool-cases, arith,
}
use mathlib.Core.Path.{subst}
use flash_db.Pubsub.Registry.{
  Snapshot, push_frames, publish_shard, subscribe_loop, without_slot, kept_channel,
  unsubscribe_shard, count_for,
}

-- The subscribers of a channel in a shard.
unfoldable pub subscribers : Snapshot → Bytes → List ℕ
subscribers [] j = []
subscribers (ch ∷ snap) j = let rest = subscribers snap j in if ch.name =ₛ j then ch.slots else rest

pub count_for-length :
    (snap : Snapshot) (j : Bytes) → count_for snap j ≡ length (subscribers snap j)
unfolding count_for subscribers
count_for-length [] j = refl
count_for-length (ch ∷ snap) j = ground (arith, count_for-length snap j)

pub publish_shard-subscribers :
    (snap : Snapshot) (j frame : Bytes)
    → publish_shard snap j frame
      ≡ (length (subscribers snap j), push_frames (subscribers snap j) frame)
unfolding publish_shard subscribers push_frames
publish_shard-subscribers [] j frame = refl
publish_shard-subscribers (ch ∷ snap) j frame = elim (Bool-cases (ch.name =ₛ j)) [
  | inl e ↦ rw e refl
  | inr e ↦ rw e (publish_shard-subscribers snap j frame)
]

-- Names that differ from a third one's differ in the test as well.
pub other_name : (a b j : Bytes) → (a =ₛ b) ≡ true → (b =ₛ j) ≡ false → (a =ₛ j) ≡ false
other_name a b j h n = rw ((eq_iff a b).0 h) n

pub subscribe_loop_others :
    (snap : Snapshot) (channel j : Bytes) (slot : ℕ) (found : Bool)
    → (channel =ₛ j) ≡ false
    → subscribers (subscribe_loop snap channel slot found) j ≡ subscribers snap j
unfolding subscribers subscribe_loop
subscribe_loop_others [] channel j slot true n = refl
subscribe_loop_others [] channel j slot false n = rw n refl
subscribe_loop_others (ch ∷ snap) channel j slot found n = elim (Bool-cases (ch.name =ₛ channel)) [
  | inl e ↦
      rw (e, other_name ch.name channel j e n) (subscribe_loop_others snap channel j slot true n)
  | inr e ↦ rw e (
      ap (λ l. if ch.name =ₛ j then ch.slots else l)
        (subscribe_loop_others snap channel j slot found n))
]

pub subscribe_loop_own :
    (snap : Snapshot) (channel : Bytes) (slot : ℕ)
    → subscribers (subscribe_loop snap channel slot false) channel
      ≡ subscribers snap channel ++ slot ∷ []
unfolding subscribers subscribe_loop
subscribe_loop_own [] channel slot = rw (eq_refl channel) refl
subscribe_loop_own (ch ∷ snap) channel slot = elim (Bool-cases (ch.name =ₛ channel)) [
  | inl e ↦ rw (e, e) refl
  | inr e ↦ rw (e, e) (subscribe_loop_own snap channel slot)
]

-- No channel stands twice in a snapshot.
abbrev pub Absent : Bytes → Snapshot → Type 0
Absent name [] = Unit
Absent name (ch ∷ snap) = ((ch.name =ₛ name) ≡ false) × Absent name snap

abbrev pub IsDistinct : Snapshot → Type 0
IsDistinct [] = Unit
IsDistinct (ch ∷ snap) = Absent ch.name snap × IsDistinct snap

pub subscribers-Absent : (snap : Snapshot) (j : Bytes) → Absent j snap → subscribers snap j ≡ []
unfolding subscribers
subscribers-Absent [] j a = refl
subscribers-Absent (ch ∷ snap) j a = rw a.0 (subscribers-Absent snap j a.1)

Absent-kept_channel :
    (name j : Bytes) (slots : List ℕ) (rest : Snapshot)
    → (name =ₛ j) ≡ false
    → Absent j rest
    → Absent j (kept_channel name slots rest)
unfolding kept_channel
Absent-kept_channel name j [] rest n a = a
Absent-kept_channel name j (s ∷ slots) rest n a = (n, a)

pub Absent-unsubscribe_shard :
    (snap : Snapshot) (j channel : Bytes) (slot : ℕ)
    → Absent j snap
    → Absent j (unsubscribe_shard snap channel slot)
unfolding unsubscribe_shard
Absent-unsubscribe_shard [] j channel slot a = a
Absent-unsubscribe_shard (ch ∷ snap) j channel slot a =
    let rest = Absent-unsubscribe_shard snap j channel slot a.1 in
    elim (Bool-cases (ch.name =ₛ channel)) [
      | inl e ↦ rw e (Absent-kept_channel ch.name j (without_slot slot ch.slots) _ a.0 rest)
      | inr e ↦ rw e (a.0, rest)
    ]

IsDistinct-kept_channel :
    (name : Bytes) (slots : List ℕ) (rest : Snapshot)
    → Absent name rest
    → IsDistinct rest
    → IsDistinct (kept_channel name slots rest)
unfolding kept_channel
IsDistinct-kept_channel name [] rest a d = d
IsDistinct-kept_channel name (s ∷ slots) rest a d = (a, d)

pub unsubscribe_shard-IsDistinct :
    (snap : Snapshot) (channel : Bytes) (slot : ℕ)
    → IsDistinct snap
    → IsDistinct (unsubscribe_shard snap channel slot)
unfolding unsubscribe_shard
unsubscribe_shard-IsDistinct [] channel slot d = d
unsubscribe_shard-IsDistinct (ch ∷ snap) channel slot d =
    let a = Absent-unsubscribe_shard snap ch.name channel slot d.0 in
    let rest = unsubscribe_shard-IsDistinct snap channel slot d.1 in
    elim (Bool-cases (ch.name =ₛ channel)) [
      | inl e ↦ rw e (IsDistinct-kept_channel ch.name (without_slot slot ch.slots) _ a rest)
      | inr e ↦ rw e (a, rest)
    ]

Absent-subscribe_loop :
    (snap : Snapshot) (j channel : Bytes) (slot : ℕ) (found : Bool)
    → (channel =ₛ j) ≡ false
    → Absent j snap
    → Absent j (subscribe_loop snap channel slot found)
unfolding subscribe_loop
Absent-subscribe_loop [] j channel slot true n a = tt
Absent-subscribe_loop [] j channel slot false n a = (n, tt)
Absent-subscribe_loop (ch ∷ snap) j channel slot found n a =
    elim (Bool-cases (ch.name =ₛ channel)) [
      | inl e ↦ rw e (a.0, Absent-subscribe_loop snap j channel slot true n a.1)
      | inr e ↦ rw e (a.0, Absent-subscribe_loop snap j channel slot found n a.1)
    ]

-- Once the channel was found, the loop copies what has no such channel.
subscribe_loop_copies :
    (snap : Snapshot) (channel : Bytes) (slot : ℕ)
    → Absent channel snap
    → subscribe_loop snap channel slot true ≡ snap
unfolding subscribe_loop
subscribe_loop_copies [] channel slot a = refl
subscribe_loop_copies (ch ∷ snap) channel slot a =
    rw a.0 (ap (λ t. ch ∷ t) (subscribe_loop_copies snap channel slot a.1))

flip_false : (a b : Bytes) → (a =ₛ b) ≡ false → (b =ₛ a) ≡ false
flip_false a b n = elim (Bool-cases (b =ₛ a)) [
  | inl e ↦ absurd (apart (b =ₛ a) e (rw ((eq_iff b a).0 e) at n))
  | inr e ↦ e
]
  where
    apart : (x : Bool) → x ≡ true → (a =ₛ a) ≡ false → ⊥
    apart x e h = cc (eq_refl a, h)

pub subscribe_shard-IsDistinct :
    (snap : Snapshot) (channel : Bytes) (slot : ℕ)
    → IsDistinct snap
    → IsDistinct (subscribe_loop snap channel slot false)
unfolding subscribe_loop
subscribe_shard-IsDistinct [] channel slot d = (tt, tt)
subscribe_shard-IsDistinct (ch ∷ snap) channel slot d = elim (Bool-cases (ch.name =ₛ channel)) [
  | inl e ↦
      let a : Absent channel snap = subst (λ n. Absent n snap) ((eq_iff ch.name channel).0 e) d.0 in
      rw (e, subscribe_loop_copies snap channel slot a) d
  | inr e ↦ rw e (
    Absent-subscribe_loop snap ch.name channel slot false (flip_false ch.name channel e) d.0,
    subscribe_shard-IsDistinct snap channel slot d.1,
  )
]
