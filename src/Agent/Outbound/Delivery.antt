-- ===== src/Agent/Outbound/Delivery.antt =====
-- In what order the outbound queue delivers.
use microtensor_compute.Common.{
  ◌≡◌, refl, sym, ap, ◌∙◌, false, List, [], ◌∷◌, ◌++◌, Option, none, some, arith, if◌then◌else◌,
  All, keep_if, append-nil, append_assoc,
}
use microtensor_compute.Agent.Outbound.{
  Message, OutboundQueue, precious, stamped, put, get, Call, puts, gets, requeues, step, run,
}
use microtensor_compute.Agent.Outbound.Laws.{precious_of, put-precious}

-- The socket task puts its messages at the back and takes them from the front.
abbrev pub IsFifo : Call → Type 0
IsFifo (puts now m front) = front ≡ false
IsFifo gets = Unit {0}
IsFifo (requeues m) = ⊥

abbrev pub got : Option (Message × OutboundQueue) → List Message
got none = []
got (some (m, rest)) = m ∷ []

-- The messages that the calls take out, and those that they hand in.
unfoldable pub delivered : OutboundQueue → List Call → List Message
unfolding get
delivered q [] = []
delivered q (gets ∷ cs) = got (get q) ++ delivered (step q gets) cs
delivered q (puts now m front ∷ cs) = delivered (step q (puts now m front)) cs
delivered q (requeues m ∷ cs) = delivered (step q (requeues m)) cs

unfoldable pub posted : List Call → List Message
posted [] = []
posted (puts now m front ∷ cs) = stamped now m ∷ posted cs
posted (_ ∷ cs) = posted cs

precious_of-append :
    (xs ys : List Message) → precious_of (xs ++ ys) ≡ precious_of xs ++ precious_of ys
unfolding keep_if
precious_of-append [] ys = refl
precious_of-append (x ∷ xs) ys = ground (arith, precious_of-append xs ys)

get-splits :
    (q : OutboundQueue)
    → precious_of (got (get q)) ++ precious_of (step q gets).items ≡ precious_of q.items
unfolding get step keep_if
get-splits q = ground arith

precious_of-cons :
    (m : Message) (ms : List Message)
    → precious_of (m ∷ ms) ≡ (if precious m.kind then m ∷ [] else []) ++ precious_of ms
unfolding keep_if
precious_of-cons m ms = ground arith

-- Results and events leave the queue in the order in which they came, none twice and none lost:
-- what was delivered and what is still queued are what was there and what was posted. The calls
-- put at the back and take from the front, in any interleaving.
pub delivered-run :
    (q : OutboundQueue) (cs : List Call)
    → All IsFifo cs
    → precious_of (delivered q cs) ++ precious_of (run q cs).items
      ≡ precious_of q.items ++ precious_of (posted cs)
unfolding delivered run posted
delivered-run q [] f = unfold keep_if in sym (append-nil (precious_of q.items))
delivered-run q (gets ∷ cs) f = rw (precious_of-append (got (get q)) (delivered (step q gets) cs)) (
    append_assoc (precious_of (got (get q))) _ _
    ∙ (ap (λ ms. precious_of (got (get q)) ++ ms) (delivered-run (step q gets) cs f.1)
        ∙ (sym (append_assoc (precious_of (got (get q))) _ _)
            ∙ ap (λ ms. ms ++ precious_of (posted cs)) (get-splits q))))
delivered-run q (puts now m front ∷ cs) f =
    delivered-run (put now m front q) cs f.1
    ∙ rw (f.0, put-precious q now m, precious_of-cons (stamped now m) (posted cs))
        (append_assoc (precious_of q.items) _ _)
delivered-run q (requeues m ∷ cs) f = absurd f.0
