-- ===== src/Examples/Publishing.antt =====
-- The publisher on concrete inputs.
use smart_gatekeeper.Common.{◌≡◌, ◌+◌, refl, true, none, some, [], ◌∷◌, All, min}
use smart_gatekeeper.Runtime.Breaker
use smart_gatekeeper.Runtime.Breaker.{Breaker, closed}
use smart_gatekeeper.Runtime.Publisher.{
  Publisher, Publishing, Connecting, connected, confirmed, await_gate, await_connect, await_confirm,
  loop_start, send, publish, connected_client, with_slot, deliver,
}
use smart_gatekeeper.Runtime.Publisher.Capacity.{free-publish}
use smart_gatekeeper.Runtime.Publisher.Cancelled.{cancelled_never_session}
use smart_gatekeeper.Runtime.Publisher.Waits.{IsPunctual, publish-IsPunctual}

abbrev calm : Breaker
calm = record { failure_threshold = 3; reset = 15000; failures = 0; opened_at = 0; phase = closed }

abbrev idle : Publisher
idle = record {
  publish_timeout = 2000;
  connect_timeout = 1000;
  breaker = calm;
  free = 2;
  client = none;
  attempt = none;
  effects = [];
}

abbrev reachable : Connecting
reachable = record {
  started = 60;
  gate_at = 61;
  gate = λ timeout. true;
  before_gate = λ s. s;
  factory = some 9;
  wait_at = 65;
  worker = λ timeout. connected;
  during_wait = λ s. s;
  starts = true;
}

abbrev message : Publishing
message = record {
  now = 50;
  started = 55;
  connecting = reachable;
  sends = true;
  sent_at = 200;
  confirm = λ timeout. confirmed;
  others = λ s. s;
  failed_at = 300;
}

-- The waits of a publication that succeeds, the last one first
waited :
    ((publish message idle).0 ≡ true)
    × ((publish message idle).1.effects
        ≡ await_confirm 200 1855
          ∷ send 9
          ∷ loop_start 9
          ∷ await_connect 65 995
          ∷ await_gate 61 999
          ∷ [])
unfolding publish connected_client Breaker.permit with_slot deliver
waited = (refl, refl)

free-publish_example : (publish message idle).1.free ≡ idle.free
free-publish_example = free-publish message idle

publish-IsPunctual_example :
    All (IsPunctual (60 + min 2000 1000) (55 + 2000)) (publish message idle).1.effects
publish-IsPunctual_example = publish-IsPunctual message idle refl

abbrev given_up : Publisher
given_up = record idle { attempt = some (record { client = 8; cancelled = true }) }

cancelled_never_session_example : (connected_client 2000 reachable given_up).0 ≡ none
cancelled_never_session_example =
    cancelled_never_session 2000 reachable given_up (record { client = 8; cancelled = true }) refl
      refl refl (λ t. (refl, refl)) (λ t. (refl, refl))
