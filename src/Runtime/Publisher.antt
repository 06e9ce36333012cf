-- ===== src/Runtime/Publisher.antt =====
-- `PersistentMqttPublisher` of backend/app/ops_runtime.py. Times are whole milliseconds of the monotonic
-- clock. What the clock, the MQTT client, the network and the calls that overlap show a call is a
-- parameter of it. A client is a number.
pub mod Capacity
pub mod Waits
pub mod Cancelled
use smart_gatekeeper.Common.{
  ℕ, zero, suc, ◌+◌, ◌-◌, Bool, true, false, ◌||◌, ◌&&◌, not, Option, none, some, List, [], ◌∷◌,
  if◌then◌else◌, ◌==◌, leb, ltb, min,
}
use smart_gatekeeper.Runtime.Breaker
use smart_gatekeeper.Runtime.Breaker.{Breaker}

-- What a call asks of its clients, and its waits, each from a time and with a timeout.
pub data Effect : Type 0 where
  cancel_connect loop_start loop_stop send : ℕ → Effect
  await_gate await_connect await_confirm : ℕ → ℕ → Effect

pub record Attempt : Type 0 where
  pub client : ℕ
  pub cancelled : Bool

pub record Publisher : Type 0 where
  pub publish_timeout : ℕ
  pub connect_timeout : ℕ
  pub breaker : Breaker
  pub free : ℕ
  pub client : Option ℕ
  pub attempt : Option Attempt
  pub effects : List Effect

-- What the calls that overlap do to the session, the attempt and the breaker. Each of them takes and
-- gives back its own slot, and has its own effects.
abbrev pub meanwhile : (Publisher → Publisher) → Publisher → Publisher
meanwhile others s = record s {
  breaker = (others s).breaker;
  client = (others s).client;
  attempt = (others s).attempt;
}

-- The connect worker when the wait for it ends
pub data Worker : Type 0 where
  working connected refused : Worker

-- What `_connected_client` meets: its readings of the clock; what `acquire` and `wait` return, by the
-- timeout; what the client factory returns (`none`: it raises); whether `loop_start` returns; and what
-- other calls do until the gate is had and during the wait.
pub record Connecting : Type 0 where
  pub started : ℕ
  pub gate_at : ℕ
  pub gate : ℕ → Bool
  pub before_gate : Publisher → Publisher
  pub factory : Option ℕ
  pub wait_at : ℕ
  pub worker : ℕ → Worker
  pub during_wait : Publisher → Publisher
  pub starts : Bool

unfoldable pub log : Effect → Publisher → Publisher
log x s = record s { effects = x ∷ s.effects }

-- `attempt["cancelled"]`, which `close` sets of the current attempt
abbrev pub is_cancelled : Attempt → Option Attempt → Bool
is_cancelled a none = a.cancelled
is_cancelled a (some b) = if b.client == a.client then b.cancelled else a.cancelled

-- From the end of `attempt["done"].wait(remaining)` on; the first part is `none` for an exception.
unfoldable pub finish_attempt : Connecting → Attempt → Worker → Publisher → Option ℕ × Publisher
unfolding log
finish_attempt env a working s = (
  none,
  log (cancel_connect a.client) (record s { attempt = some (record a { cancelled = true }) }),
)
finish_attempt env a connected s =
    if is_cancelled a s.attempt
    then (none, log (cancel_connect a.client) (record s { attempt = none }))
    else if env.starts
    then (
      some a.client,
      log (loop_start a.client) (record s { attempt = none; client = some a.client }),
    )
    else (none, record s { attempt = none })
finish_attempt env a refused s = (none, log (cancel_connect a.client) (record s { attempt = none }))

-- `if remaining <= 0 or not attempt["done"].wait(remaining)`
unfoldable pub await_attempt : Connecting → ℕ → Attempt → Publisher → Option ℕ × Publisher
unfolding finish_attempt log
await_attempt env deadline a s =
    if leb deadline env.wait_at
    then finish_attempt env a working s
    else finish_attempt env a (env.worker (deadline - env.wait_at))
        (meanwhile env.during_wait (log (await_connect env.wait_at (deadline - env.wait_at)) s))

-- `if attempt is None: attempt = self._new_connect_attempt()`
abbrev pub current_attempt : Option ℕ → Option Attempt → Option Attempt
current_attempt factory (some a) = some a
current_attempt (some c) none = some (record { client = c; cancelled = false })
current_attempt none none = none

unfoldable pub connect_gated : Connecting → ℕ → Option Attempt → Publisher → Option ℕ × Publisher
unfolding await_attempt
connect_gated env deadline none s = (none, s)
connect_gated env deadline (some a) s = await_attempt env deadline a (record s { attempt = some a })

-- The second look at the session, with the gate
unfoldable pub with_gate : Connecting → ℕ → Option ℕ → Publisher → Option ℕ × Publisher
unfolding connect_gated
with_gate env deadline (some c) s = (some c, s)
with_gate env deadline none s = connect_gated env deadline (current_attempt env.factory s.attempt) s

-- The gate, where the deadline is not over
unfoldable pub ask_gate : Connecting → ℕ → Publisher → Option ℕ × Publisher
unfolding with_gate log
ask_gate env deadline s =
    if leb deadline env.gate_at
    then (none, s)
    else (let asked = log (await_gate env.gate_at (deadline - env.gate_at)) s in
        let t = meanwhile env.before_gate asked in
        if env.gate (deadline - env.gate_at) then with_gate env deadline t.client t else (none, t))

unfoldable pub reuse_or_connect : Connecting → ℕ → Option ℕ → Publisher → Option ℕ × Publisher
unfolding ask_gate
reuse_or_connect env deadline (some c) s = (some c, s)
reuse_or_connect env deadline none s = ask_gate env deadline s

-- The first part is `none` where the source raises.
unfoldable pub connected_client : ℕ → Connecting → Publisher → Option ℕ × Publisher
unfolding reuse_or_connect
connected_client timeout env s =
    reuse_or_connect env (env.started + min timeout s.connect_timeout) s.client s

unfoldable pub discard_client : Option ℕ → Publisher → Publisher
unfolding log
discard_client none s = s
discard_client (some c) s = log (loop_stop c) (record s { client = none })

-- `_discard`; exceptions of the client are swallowed there
unfoldable pub discard : Publisher → Publisher
unfolding discard_client
discard s = discard_client s.client s

-- What `wait_for_publish` and then `is_published` say
pub data Confirmation : Type 0 where
  wait_raised unconfirmed confirmed : Confirmation

-- What `publish` meets: its readings of the clock, whether `client.publish` returns, the confirmation by
-- the timeout of the wait, and what other calls do while it publishes and waits.
pub record Publishing : Type 0 where
  pub now : ℕ
  pub started : ℕ
  pub connecting : Connecting
  pub sends : Bool
  pub sent_at : ℕ
  pub confirm : ℕ → Confirmation
  pub others : Publisher → Publisher
  pub failed_at : ℕ

-- `except Exception: self.breaker.failure(); self._discard(); return False`
unfoldable pub fail_at : ℕ → Publisher → Bool × Publisher
unfolding discard
fail_at now s = (false, discard (record s { breaker = Breaker.failure now s.breaker }))

unfoldable pub settle : Publishing → Confirmation → Publisher → Bool × Publisher
unfolding fail_at
settle env confirmed s = (true, record s { breaker = Breaker.success s.breaker })
settle env _ s = fail_at env.failed_at s

-- After `client.publish`, with the deadline
unfoldable pub await_sent : Publishing → ℕ → Publisher → Bool × Publisher
unfolding settle fail_at log
await_sent env deadline s =
    if leb deadline env.sent_at
    then fail_at env.failed_at s
    else settle env (env.confirm (deadline - env.sent_at))
        (meanwhile env.others (log (await_confirm env.sent_at (deadline - env.sent_at)) s))

unfoldable pub deliver : Publishing → ℕ → Option ℕ × Publisher → Bool × Publisher
unfolding await_sent fail_at log
deliver env deadline (none, s) = fail_at env.failed_at s
deliver env deadline (some c, s) =
    if env.sends then await_sent env deadline (log (send c) s) else fail_at env.failed_at s

-- The body under `try`, with a slot taken before it and given back after it.
unfoldable pub with_slot : Publishing → Publisher → Bool × Publisher
with_slot env s =
    let (done, t) =
      deliver env (env.started + s.publish_timeout)
        (connected_client s.publish_timeout env.connecting (record s { free = s.free - 1 })) in
    (done, record t { free = t.free + 1 })

-- `permit()` changes the breaker before the semaphore is tried.
unfoldable pub publish : Publishing → Publisher → Bool × Publisher
publish env s =
    let (granted, b) = Breaker.permit env.now s.breaker in
    let asked = record s { breaker = b } in
    if not granted || asked.free == 0 then (false, asked) else with_slot env asked

-- What `probe` meets: its timeout; whether the client has a callable `is_connected`; when the loop
-- starts; the rounds, each the reading of the clock and what `is_connected` returns then; and what other
-- calls do before the loop.
pub record Probing : Type 0 where
  pub now : ℕ
  pub timeout : ℕ
  pub connecting : Connecting
  pub callable : Bool
  pub started : ℕ
  pub rounds : List (ℕ × Bool)
  pub others : Publisher → Publisher
  pub failed_at : ℕ

-- `while time.monotonic() < deadline`: whether a round saw the client connected
unfoldable pub poll : ℕ → List (ℕ × Bool) → Bool
poll deadline [] = false
poll deadline ((now, up) ∷ rounds) =
    let rest = poll deadline rounds in if ltb now deadline then if up then true else rest else false

unfoldable pub polled : Probing → Bool → Publisher → Bool × Publisher
unfolding fail_at
polled env true s = (true, record s { breaker = Breaker.success s.breaker })
polled env false s = fail_at env.failed_at s

unfoldable pub connack : Probing → Option ℕ × Publisher → Bool × Publisher
unfolding fail_at polled
connack env (none, s) = fail_at env.failed_at s
connack env (some c, s) =
    if not env.callable
    then (true, s)
    else polled env (poll (env.started + env.timeout) env.rounds) (meanwhile env.others s)

unfoldable pub probe : Probing → Publisher → Bool × Publisher
unfolding connack
probe env s =
    let (granted, b) = Breaker.permit env.now s.breaker in
    let asked = record s { breaker = b } in
    if not granted
    then (false, asked)
    else connack env (connected_client env.timeout env.connecting asked)

unfoldable pub cancel_attempt : Option Attempt → Publisher → Publisher
unfolding log
cancel_attempt none s = s
cancel_attempt (some a) s =
    log (cancel_connect a.client) (record s { attempt = some (record a { cancelled = true }) })

unfoldable pub close : Publisher → Publisher
unfolding cancel_attempt discard
close s = discard (cancel_attempt s.attempt s)
