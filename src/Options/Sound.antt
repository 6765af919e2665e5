-- ===== src/Options/Sound.antt =====
-- What every configuration that New accepts satisfies.
use sse_eventbus_go.Prelude.{false, List, [], ◌∷◌, ◌≡◌, ◌⊎◌, arith, is_empty}
use sse_eventbus_go.Prelude.Int.{pos, ◌≤ℤ◌}
use sse_eventbus_go.Options.{
  ◌>>=◌, Config, default_config, Result, ok, err, is_nil, any_nil, with_worker_count,
  with_synchronous_delivery, with_queue_capacities, with_send_attempts, with_scheduler_delay,
  with_retry_backoff, with_client_expiration, without_client_expiration, with_heartbeat,
  with_replay, with_converters, with_subscription_registry, with_listener, with_observer,
  with_panic_handler, with_distributed_transport, BusOption, apply, apply_all, configure,
}

-- The ranges that the rest of the bus relies on: workers, queues with room, a ticker for each loop
-- that New starts, a backoff below its cap, and no nil where an extension is called unguarded.
pub record IsUsable (c : Config) : Type 0 where
  pub workers : pos 1 ≤ℤ c.workers
  pub send_capacity : pos 1 ≤ℤ c.send_capacity
  pub retry_capacity : pos 1 ≤ℤ c.retry_capacity
  pub attempts : pos 1 ≤ℤ c.attempts
  pub scheduler_delay : pos 1 ≤ℤ c.scheduler_delay
  pub expiration :
      ((c.expiration ≡ pos 0) × (c.expiration_scan ≡ pos 0))
      ⊎ ((pos 1 ≤ℤ c.expiration) × (pos 1 ≤ℤ c.expiration_scan))
  pub retry_base : pos 1 ≤ℤ c.retry_base
  pub retry_max : c.retry_base ≤ℤ c.retry_max
  pub heartbeat : pos 0 ≤ℤ c.heartbeat_interval
  pub comment : is_empty c.heartbeat_comment ≡ false
  pub retention : pos 1 ≤ℤ c.replay_retention
  pub cleanup : pos 1 ≤ℤ c.replay_cleanup
  pub converters : is_empty c.converters ≡ false
  pub no_nil_converter : any_nil c.converters ≡ false
  pub registry : is_nil c.registry ≡ false
  pub listener : is_nil c.listener ≡ false

-- A refused option has no configuration to speak of.
abbrev pub Usable : Result → Type 0
Usable (ok c) = IsUsable c
Usable (err e) = Unit {0}

default-IsUsable : IsUsable default_config
unfolding default_config is_empty any_nil is_nil
default-IsUsable = ground arith

apply-Usable : (option : BusOption) (c : Config) → IsUsable c → Usable (apply option c)
unfolding apply
apply-Usable BusOption.nil_option c v = tt
apply-Usable BusOption.synchronous_delivery c v = unfold with_synchronous_delivery in ground arith
apply-Usable BusOption.no_client_expiration c v = unfold without_client_expiration in ground arith
apply-Usable (BusOption.worker_count n) c v = unfold with_worker_count in ground arith
apply-Usable (BusOption.send_attempts n) c v = unfold with_send_attempts in ground arith
apply-Usable (BusOption.scheduler_delay n) c v = unfold with_scheduler_delay in ground arith
apply-Usable (BusOption.queue_capacities m n) c v = unfold with_queue_capacities in ground arith
apply-Usable (BusOption.retry_backoff m n) c v = unfold with_retry_backoff in ground arith
apply-Usable (BusOption.client_expiration m n) c v = unfold with_client_expiration in ground arith
apply-Usable (BusOption.heartbeat n comment) c v = unfold with_heartbeat in ground arith
apply-Usable (BusOption.replay i m n) c v = unfold with_replay in ground arith
apply-Usable (BusOption.converters is) c v = unfold with_converters in ground arith
apply-Usable (BusOption.subscription_registry i) c v =
    unfold with_subscription_registry in ground arith
apply-Usable (BusOption.listener i) c v = unfold with_listener in ground arith
apply-Usable (BusOption.observer i) c v = unfold with_observer in ground arith
apply-Usable (BusOption.panic_handler i) c v = unfold with_panic_handler in ground arith
apply-Usable (BusOption.distributed_transport i) c v =
    unfold with_distributed_transport in ground arith

>>=-Usable :
    (r : Result) (f : Config → Result)
    → Usable r
    → ((d : Config) → IsUsable d → Usable (f d))
    → Usable (r >>= f)
>>=-Usable (ok d) f w h = h d w
>>=-Usable (err e) f w h = tt

apply_all-Usable :
    (options : List BusOption) (c : Config) → IsUsable c → Usable (apply_all options c)
unfolding apply_all
apply_all-Usable [] c v = v
apply_all-Usable (option ∷ options) c v =
    >>=-Usable (apply option c) (apply_all options) (apply-Usable option c v)
      (λ d w. apply_all-Usable options d w)

-- Whatever options New is given, a configuration that it accepts is usable: counts, capacities,
-- delays and retention times are positive, the backoff does not exceed its cap, expiration is off or
-- has a positive scan interval, and neither the registry, the listener nor any converter is nil.
pub configure-IsUsable :
    (options : List BusOption) (c : Config) → configure options ≡ ok c → IsUsable c
unfolding configure
configure-IsUsable options c e = rw e at (apply_all-Usable options default_config default-IsUsable)
