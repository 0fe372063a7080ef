-- ===== src/Agent/Outbound/Laws.antt =====
-- What `put` does to the messages: results and events are never lost, and every message is queued
-- or counted.
use microtensor_compute.Common.{
  ℕ, suc, ◌+◌, ◌≤◌, ◌≡◌, refl, ap, ◌⊎◌, inl, inr, Bool, true, false, List, [], ◌∷◌, ◌++◌, Option,
  none, some, arith, if◌then◌else◌, length, length-append, All, Bool-cases, keep_if, append-nil,
}
use microtensor_compute.Agent.Outbound.{
  Kind, Message, OutboundQueue, droppable, precious, depth, delete_droppable, drop_oldest_droppable,
  stamped, put,
}

abbrev pub precious_of : List Message → List Message
precious_of = keep_if (λ m. precious m.kind)

not_precious : (k : Kind) → droppable k ≡ true → precious k ≡ false
not_precious k h = ground arith

abbrev pub Undroppable : List Message → Type 0
Undroppable = All (λ m. droppable m.kind ≡ false)

-- Either nothing may be dropped, or exactly one message goes, and it is no precious one.
abbrev pub Deletes : List Message → Option (List Message) → Type 0
Deletes ms r =
    ((r ≡ none) × Undroppable ms)
    ⊎ ((rest : List Message) × (r ≡ some rest)
        × (length ms ≡ suc (length rest))
        × (precious_of rest ≡ precious_of ms))

pub delete-Deletes : (ms : List Message) → Deletes ms (delete_droppable ms)
unfolding delete_droppable keep_if
delete-Deletes [] = inl (refl, tt)
delete-Deletes (m ∷ ms) = elim (Bool-cases (droppable m.kind)) [
  | inl e ↦ inr (ms, rw e refl, refl, rw (not_precious m.kind e) refl)
  | inr e ↦ elim (delete-Deletes ms) [
    | inl (r, u) ↦ inl (rw (e, r, delete_droppable) refl, (e, u))
    | inr (rest, r, l, p) ↦ inr (
      m ∷ rest,
      rw (e, r, delete_droppable) refl,
      ap suc l,
      ap (λ ps. if precious m.kind then m ∷ ps else ps) p,
    )
  ]
]

precious_of-snoc :
    (ms : List Message) (m : Message)
    → precious_of (ms ++ m ∷ []) ≡ precious_of ms ++ (if precious m.kind then m ∷ [] else [])
unfolding keep_if
precious_of-snoc [] m = refl
precious_of-snoc (x ∷ xs) m = ground (arith, precious_of-snoc xs m)

-- What `put` may do: take the message in, after dropping at most one that is not precious, or turn
-- it away, which it does to no precious message.
abbrev pub Arrives : OutboundQueue → OutboundQueue → Type 0
Arrives q r =
    (r.max_depth ≡ q.max_depth)
    × (precious_of r.items ≡ precious_of q.items)
    × (depth r + r.dropped ≡ depth q + q.dropped)
    × (depth r ≤ depth q)

pub drop-Arrives : (q : OutboundQueue) → Arrives q (drop_oldest_droppable q).0
unfolding drop_oldest_droppable
drop-Arrives q = elim (delete-Deletes q.items) [
  | inl (r, u) ↦ rw (r, drop_oldest_droppable) (refl, refl, refl, omega arith)
  | inr (rest, r, l, p) ↦
      rw (r, drop_oldest_droppable) (refl, p, omega (arith, l), omega (arith, l))
]

-- Where nothing was found to drop, nothing in the queue may be dropped.
pub drop_not_found :
    (q : OutboundQueue)
    → (drop_oldest_droppable q).1 ≡ false
    → Undroppable q.items × ((drop_oldest_droppable q).0 ≡ q)
unfolding drop_oldest_droppable
drop_not_found q h = elim (delete-Deletes q.items) [
  | inl (r, u) ↦ (u, rw (r, drop_oldest_droppable) refl)
  | inr (rest, r, l, p) ↦ let h' = rw (r, drop_oldest_droppable) at h in cc
]

pub drop_found :
    (q : OutboundQueue)
    → (drop_oldest_droppable q).1 ≡ true
    → depth q ≡ suc (depth (drop_oldest_droppable q).0)
unfolding drop_oldest_droppable
drop_found q h = elim (delete-Deletes q.items) [
  | inl (r, u) ↦ let h' = rw (r, drop_oldest_droppable) at h in cc
  | inr (rest, r, l, p) ↦ rw (r, drop_oldest_droppable) l
]

-- A precious message is never turned away, and no precious message that is queued is lost: after
-- a put at the back the precious messages are those of before, in their order, and the new one.
pub put-precious :
    (q : OutboundQueue) (now : ℕ) (m : Message)
    → precious_of (put now m false q).items
      ≡ precious_of q.items ++ (if precious m.kind then stamped now m ∷ [] else [])
unfolding put
put-precious q now m =
    let freed = (drop_oldest_droppable q).0 in
    ground (
      arith,
      drop-Arrives q,
      precious_of-snoc q.items (stamped now m),
      precious_of-snoc freed.items (stamped now m),
      append-nil (precious_of q.items),
      append-nil (precious_of freed.items),
    )

-- Every message is queued or counted as dropped, wherever it is put.
pub put_accounts :
    (q : OutboundQueue) (now : ℕ) (m : Message) (front : Bool)
    → depth (put now m front q) + (put now m front q).dropped ≡ depth q + q.dropped + 1
unfolding put
put_accounts q now m front = ground (
  arith,
  drop-Arrives q,
  length-append q.items (stamped now m ∷ []),
  length-append (drop_oldest_droppable q).0.items (stamped now m ∷ []),
)
