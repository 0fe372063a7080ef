-- ===== src/Agent/Outbound/Bound.antt =====
-- How long the outbound queue may grow.
use microtensor_compute.Common.{
  ℕ, ◌+◌, ◌≤◌, ◌≡◌, refl, ap, subst, ◌⊎◌, inl, inr, Bool, true, false, List, [], ◌∷◌, none, arith,
  leb, length, length-append, All, All-append, Bool-cases,
}
use microtensor_compute.Agent.Outbound.{
  Kind, Message, OutboundQueue, droppable, precious, depth, delete_droppable, drop_oldest_droppable,
  stamped, place, put, Call, puts, gets, requeues, step, run,
}
use microtensor_compute.Agent.Outbound.Laws.{Undroppable, drop-Arrives, drop_not_found, drop_found}

-- The depth passes the maximum only by messages that may not be dropped: a queue over its maximum
-- holds no state report and no ping.
abbrev pub IsBounded : OutboundQueue → Type 0
IsBounded q = (depth q ≤ q.max_depth) ⊎ Undroppable q.items

Undroppable-stays : (ms : List Message) → Undroppable ms → delete_droppable ms ≡ none
unfolding delete_droppable
Undroppable-stays [] u = refl
Undroppable-stays (m ∷ ms) u = ground (arith, u.0, Undroppable-stays ms u.1)

Undroppable-not_found :
    (q : OutboundQueue) → Undroppable q.items → (drop_oldest_droppable q).1 ≡ false
unfolding drop_oldest_droppable
Undroppable-not_found q u = rw (Undroppable-stays q.items u, drop_oldest_droppable) refl

-- A bounded queue in which something is found to drop is within its maximum.
found_within :
    (q : OutboundQueue) → IsBounded q → (drop_oldest_droppable q).1 ≡ true → depth q ≤ q.max_depth
found_within q (inl h) found = h
found_within q (inr u) found = let missed = Undroppable-not_found q u in cc

precious_undroppable : (k : Kind) → precious k ≡ true → droppable k ≡ false
precious_undroppable k h = ground arith

Undroppable-place :
    (q : OutboundQueue) (m : Message) (front : Bool)
    → Undroppable q.items
    → precious m.kind ≡ true
    → Undroppable (place front m q).items
Undroppable-place q m true u p = (precious_undroppable m.kind p, u)
Undroppable-place q m false u p =
    All-append _ q.items (m ∷ []) u (precious_undroppable m.kind p, tt)

depth-place :
    (q : OutboundQueue) (m : Message) (front : Bool) → depth (place front m q) ≡ depth q + 1
depth-place q m true = omega arith
depth-place q m false = length-append q.items (m ∷ [])

abbrev Placed : ℕ → Message → Bool → OutboundQueue → Type 0
Placed now m front q = IsBounded (place front (stamped now m) q)

-- A put keeps a bounded queue bounded, at the front or at the back.
pub put-IsBounded :
    (q : OutboundQueue) (now : ℕ) (m : Message) (front : Bool)
    → IsBounded q
    → IsBounded (put now m front q)
unfolding put
put-IsBounded q now m front b = elim (Bool-cases (leb q.max_depth (depth q))) [
  | inr room ↦ rw room (inl (ground (arith, depth-place q (stamped now m) front)))
  | inl full ↦ elim (Bool-cases (drop_oldest_droppable q).1) [
    | inr missed ↦
        let (u, same) = drop_not_found q missed in
        elim (Bool-cases (precious m.kind)) [
          | inl p ↦ rw (full, missed, p, same) (inr (Undroppable-place q (stamped now m) front u p))
          | inr p ↦ rw (full, missed, p, same) (inr u)
        ]
    | inl found ↦
        let freed = (drop_oldest_droppable q).0 in
        let within = found_within q b found in
        let shorter = drop_found q found in
        let cap = (drop-Arrives q).0 in
        let room : leb q.max_depth (depth freed) ≡ false = ground arith in
        let placed : IsBounded (place front (stamped now m) freed) =
          inl (omega (arith, depth-place freed (stamped now m) front)) in
        elim (Bool-cases (precious m.kind)) [
          | inl p ↦ rw (full, found, p) placed
          | inr p ↦ rw (full, found, p, room) placed
        ]
  ]
]

-- Taking a message out keeps it bounded too.
pub get-IsBounded : (q : OutboundQueue) → IsBounded q → IsBounded (step q gets)
unfolding step
get-IsBounded q b = items_cases q.items refl
  where
    items_cases : (ms : List Message) → q.items ≡ ms → IsBounded (step q gets)
    items_cases [] e = rw (e, step) b
    items_cases (m ∷ ms) e = elim b [
      | inl h ↦ rw (e, step) (inl (omega (arith, ap length e)))
      | inr u ↦ rw (e, step) (inr (subst Undroppable e u).1)
    ]

abbrev pub IsNoRequeue : Call → Type 0
IsNoRequeue (requeues m) = ⊥
IsNoRequeue _ = Unit {0}

-- Any interleaving of puts and takes keeps the bound.
pub run-IsBounded :
    (q : OutboundQueue) (cs : List Call) → All IsNoRequeue cs → IsBounded q → IsBounded (run q cs)
unfolding run
run-IsBounded q [] n b = b
run-IsBounded q (puts now m front ∷ cs) n b =
    run-IsBounded (step q (puts now m front)) cs n.1 (unfold step in put-IsBounded q now m front b)
run-IsBounded q (gets ∷ cs) n b = run-IsBounded (step q gets) cs n.1 (get-IsBounded q b)
run-IsBounded q (requeues m ∷ cs) n b = absurd n.0
