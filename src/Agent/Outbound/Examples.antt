-- ===== src/Agent/Outbound/Examples.antt =====
-- A queue of depth two that holds a ping and a result.
use microtensor_compute.Common.{ℕ, ◌≡◌, refl, inl, true, false, List, [], ◌∷◌, ◌++◌, none, arith}
use microtensor_compute.Agent.Outbound.{
  Kind, ping, result, event, Message, OutboundQueue, stamped, put, Call, puts, gets, step, run,
}
use microtensor_compute.Agent.Outbound.Laws.{precious_of}
use microtensor_compute.Agent.Outbound.Bound.{IsBounded, put-IsBounded, run-IsBounded}
use microtensor_compute.Agent.Outbound.Delivery.{delivered, posted, delivered-run}

abbrev message : Kind → ℕ → Message
message k n = record { kind = k; body = n; sent_at = none; queue_depth = 0; forwarded_at = 0 }

abbrev full : OutboundQueue
full = record { max_depth = 2; items = message ping 1 ∷ message result 2 ∷ []; dropped = 0 }

-- The ping makes room for the event.
put-event : put 5 (message event 3) false full ≡ record {
  max_depth = 2;
  items = message result 2 ∷ stamped 5 (message event 3) ∷ [];
  dropped = 1;
}
unfolding put
put-event = refl

put-IsBounded_example : IsBounded (put 5 (message event 3) true full)
put-IsBounded_example = put-IsBounded full 5 (message event 3) true (inl (omega arith))

abbrev calls : List Call
calls = puts 5 (message event 3) false ∷ gets ∷ puts 6 (message result 4) false ∷ gets ∷ []

delivered-run_example :
    precious_of (delivered full calls) ++ precious_of (run full calls).items
    ≡ precious_of full.items ++ precious_of (posted calls)
delivered-run_example = delivered-run full calls (refl, (tt, (refl, (tt, tt))))

delivered-calls : delivered full calls ≡ message result 2 ∷ stamped 5 (message event 3) ∷ []
unfolding delivered step
delivered-calls = refl

run-IsBounded_example : IsBounded (run full calls)
run-IsBounded_example = run-IsBounded full calls (tt, (tt, (tt, (tt, tt)))) (inl (omega arith))
