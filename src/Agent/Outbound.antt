-- ===== src/Agent/Outbound.antt =====
-- agent/control/queue.py: the bounded queue of messages to the pool server. The lock makes each
-- method one step; `get` returns none where the coroutine would wait for a wake.
pub mod Laws
pub mod Bound
pub mod Delivery
pub mod Examples
use microtensor_compute.Common.{
  string_eq, ℕ, ◌+◌, ◌&&◌, ◌||◌, not, Bool, true, false, List, [], ◌∷◌, ◌++◌, Option, none, some,
  String, Dict, if◌then◌else◌, leb, length, lookup, insert, from_option,
}

-- The `type` of a message: AgentMessage of protocol/messages.py, or anything else.
pub data Kind : Type 0 where
  hello ping state result event : Kind
  other : String → Kind

pub record Message : Type 0 where
  pub kind : Kind
  pub body : ℕ
  pub sent_at : Option ℕ
  pub queue_depth : ℕ
  pub forwarded_at : ℕ

abbrev pub max_depth_default : ℕ
max_depth_default = 2000

abbrev pub droppable : Kind → Bool
droppable state = true
droppable ping = true
droppable _ = false

abbrev pub precious : Kind → Bool
precious result = true
precious event = true
precious _ = false

pub record OutboundQueue : Type 0 where
  pub max_depth : ℕ
  pub items : List Message
  pub dropped : ℕ

abbrev pub depth : OutboundQueue → ℕ
depth q = length q.items

-- The items without the first that may be dropped; none if there is none.
unfoldable pub delete_droppable : List Message → Option (List Message)
delete_droppable [] = none
delete_droppable (m ∷ ms) =
    if droppable m.kind
    then some ms
    else elim (delete_droppable ms) [ none ↦ none | some rest ↦ some (m ∷ rest) ]

unfoldable pub drop_oldest_droppable : OutboundQueue → OutboundQueue × Bool
unfolding delete_droppable
drop_oldest_droppable q = elim (delete_droppable q.items) [
  | none ↦ (q, false)
  | some rest ↦ (record q { items = rest; dropped = q.dropped + 1 }, true)
]

-- `message.setdefault("sent_at", stamp())`
abbrev pub stamped : ℕ → Message → Message
stamped now m = record m { sent_at = some (from_option now m.sent_at) }

abbrev pub place : Bool → Message → OutboundQueue → OutboundQueue
place front m q = record q { items = if front then m ∷ q.items else q.items ++ m ∷ [] }

abbrev pub count_drop : OutboundQueue → OutboundQueue
count_drop q = record q { dropped = q.dropped + 1 }

-- `put` at the moment `now`.
unfoldable pub put : ℕ → Message → Bool → OutboundQueue → OutboundQueue
unfolding drop_oldest_droppable
put now message front q =
    let m = stamped now message in
    let (freed, found) = drop_oldest_droppable q in
    if leb q.max_depth (depth q)
    then (if not (precious m.kind)
        then (if not found || leb q.max_depth (depth freed)
            then count_drop freed
            else place front m freed)
        else place front m freed)
    else place front m q

unfoldable pub requeue : Message → OutboundQueue → OutboundQueue
requeue m q = record q { items = m ∷ q.items }

unfoldable pub get : OutboundQueue → Option (Message × OutboundQueue)
get q = elim q.items [ [] ↦ none | m ∷ rest ↦ some (m, record q { items = rest }) ]

-- `stamp`: what a message carries when it is forwarded.
unfoldable pub forward_stamp : ℕ → OutboundQueue → Message → Message
forward_stamp now q m = record m { queue_depth = depth q; forwarded_at = now }

-- The methods in any order, as the agent's tasks interleave them.
pub data Call : Type 0 where
  puts : ℕ → Message → Bool → Call
  gets : Call
  requeues : Message → Call

unfoldable pub step : OutboundQueue → Call → OutboundQueue
unfolding put get requeue
step q (puts now m front) = put now m front q
step q gets = elim (get q) [ none ↦ q | some (m, rest) ↦ rest ]
step q (requeues m) = requeue m q

unfoldable pub run : OutboundQueue → List Call → OutboundQueue
unfolding step
run q [] = q
run q (c ∷ cs) = run (step q c) cs
