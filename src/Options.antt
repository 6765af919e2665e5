-- ===== src/Options.antt =====
-- options.go: the configuration of a bus, its options, and the loop of New (bus.go) that applies
-- them. A count is an int and a time.Duration is in nanoseconds, both signed.
pub mod Sound
mod Tests
use sse_eventbus_go.Prelude.{
  ℕ, Bool, true, false, ◌||◌, List, [], ◌∷◌, Option, none, some, if◌then◌else◌, Str, codes,
  is_empty,
}
use sse_eventbus_go.Prelude.Int.{ℤ, pos, ltb_ℤ}
use sse_eventbus_go.Errors.{Error, text}

-- An interface value: nil, or one that is known by a number. `isNil` also holds of an interface
-- value around a nil pointer, map, slice, channel or function.
pub data Interface : Type 0 where
  untyped_nil : Interface
  typed_nil : ℕ → Interface
  value : ℕ → Interface

pub is_nil : Interface → Bool
is_nil untyped_nil = true
is_nil (typed_nil n) = true
is_nil (value n) = false

pub record Config : Type 0 where
  pub workers : ℤ
  pub send_capacity : ℤ
  pub retry_capacity : ℤ
  pub attempts : ℤ
  pub synchronous : Bool
  pub scheduler_delay : ℤ
  pub expiration : ℤ
  pub expiration_scan : ℤ
  pub retry_base : ℤ
  pub retry_max : ℤ
  pub heartbeat_interval : ℤ
  pub heartbeat_comment : Str
  pub replay_store : Interface
  pub replay_retention : ℤ
  pub replay_cleanup : ℤ
  pub converters : List Interface
  pub registry : Interface
  pub listener : Interface
  pub observer : Interface
  pub panic_handler : Interface
  pub distributed : Interface

abbrev pub second : ℕ
second = 1_000_000_000

-- JSONConverter, a new memory registry and NopListener
abbrev pub json_converter : Interface
json_converter = value 0

abbrev pub new_memory_registry : Interface
new_memory_registry = value 1

abbrev pub nop_listener : Interface
nop_listener = value 2

pub default_config : Config
default_config = record {
  workers = pos 1;
  send_capacity = pos 10_000;
  retry_capacity = pos 10_000;
  attempts = pos 40;
  synchronous = false;
  scheduler_delay = pos 500_000_000;
  expiration = pos 86_400_000_000_000;
  expiration_scan = pos 86_400_000_000_000;
  retry_base = pos 1_000_000_000;
  retry_max = pos 30_000_000_000;
  heartbeat_interval = pos 0;
  heartbeat_comment = codes "heartbeat";
  replay_store = untyped_nil;
  replay_retention = pos 300_000_000_000;
  replay_cleanup = pos 300_000_000_000;
  converters = json_converter ∷ [];
  registry = new_memory_registry;
  listener = nop_listener;
  observer = untyped_nil;
  panic_handler = untyped_nil;
  distributed = untyped_nil;
}

pub data Result : Type 0 where
  ok : Config → Result
  err : Error → Result

infixl 5 ◌>>=◌
abbrev pub ◌>>=◌ : Result → (Config → Result) → Result
ok c >>= f = f c
err e >>= f = err e

-- x < 1, and x <= 0, which is the same
abbrev pub below_one : ℤ → Bool
below_one x = ltb_ℤ x (pos 1)

pub with_worker_count : ℤ → Config → Result
with_worker_count count c =
    if below_one count
    then err (text (codes "worker count must be positive"))
    else ok (record c { workers = count })

pub with_synchronous_delivery : Config → Result
with_synchronous_delivery c = ok (record c { synchronous = true })

pub with_queue_capacities : ℤ → ℤ → Config → Result
with_queue_capacities send retry c =
    if below_one send || below_one retry
    then err (text (codes "queue capacities must be positive"))
    else ok (record c { send_capacity = send; retry_capacity = retry })

pub with_send_attempts : ℤ → Config → Result
with_send_attempts attempts c =
    if below_one attempts
    then err (text (codes "send attempts must be positive"))
    else ok (record c { attempts = attempts })

pub with_scheduler_delay : ℤ → Config → Result
with_scheduler_delay delay c =
    if below_one delay
    then err (text (codes "scheduler delay must be positive"))
    else ok (record c { scheduler_delay = delay })

pub with_retry_backoff : ℤ → ℤ → Config → Result
with_retry_backoff initial maximum c =
    if below_one initial || ltb_ℤ maximum initial
    then err
        (text (codes "retry backoff must be positive and maximum must not be less than initial"))
    else ok (record c { retry_base = initial; retry_max = maximum })

pub with_client_expiration : ℤ → ℤ → Config → Result
with_client_expiration expiration scan_interval c =
    if below_one expiration || below_one scan_interval
    then err (text (codes "client expiration and scan interval must be positive"))
    else ok (record c { expiration = expiration; expiration_scan = scan_interval })

pub without_client_expiration : Config → Result
without_client_expiration c = ok (record c { expiration = pos 0; expiration_scan = pos 0 })

pub with_heartbeat : ℤ → Str → Config → Result
unfolding is_empty
with_heartbeat interval comment c =
    if ltb_ℤ interval (pos 0)
    then err (text (codes "heartbeat interval cannot be negative"))
    else ok (record c {
      heartbeat_interval = interval;
      heartbeat_comment = if is_empty comment then c.heartbeat_comment else comment;
    })

pub with_replay : Interface → ℤ → ℤ → Config → Result
unfolding is_nil
with_replay store retention cleanup_interval c =
    if is_nil store
    then err (text (codes "replay store cannot be nil"))
    else if below_one retention || below_one cleanup_interval
    then err (text (codes "replay retention and cleanup interval must be positive"))
    else ok (record c {
      replay_store = store;
      replay_retention = retention;
      replay_cleanup = cleanup_interval;
    })

pub any_nil : List Interface → Bool
unfolding is_nil
any_nil [] = false
any_nil (converter ∷ converters) = is_nil converter || any_nil converters

pub with_converters : List Interface → Config → Result
unfolding any_nil is_empty
with_converters converters c =
    if is_empty converters
    then err (text (codes "at least one converter is required"))
    else if any_nil converters
    then err (text (codes "converter cannot be nil"))
    else ok (record c { converters = converters })

pub with_subscription_registry : Interface → Config → Result
unfolding is_nil
with_subscription_registry registry c =
    if is_nil registry
    then err (text (codes "subscription registry cannot be nil"))
    else ok (record c { registry = registry })

pub with_listener : Interface → Config → Result
unfolding is_nil
with_listener listener c =
    if is_nil listener
    then err (text (codes "listener cannot be nil"))
    else ok (record c { listener = listener })

pub with_observer : Interface → Config → Result
unfolding is_nil
with_observer observer c =
    if is_nil observer
    then err (text (codes "observer cannot be nil"))
    else ok (record c { observer = observer })

pub with_panic_handler : Interface → Config → Result
unfolding is_nil
with_panic_handler handler c =
    if is_nil handler
    then err (text (codes "panic handler cannot be nil"))
    else ok (record c { panic_handler = handler })

pub with_distributed_transport : Interface → Config → Result
unfolding is_nil
with_distributed_transport transport c =
    if is_nil transport
    then err (text (codes "distributed transport cannot be nil"))
    else ok (record c { distributed = transport })

-- The options that a caller can pass to New, nil included.
pub data BusOption : Type 0 where
  nil_option synchronous_delivery no_client_expiration : BusOption
  worker_count send_attempts scheduler_delay : ℤ → BusOption
  queue_capacities retry_backoff client_expiration : ℤ → ℤ → BusOption
  heartbeat : ℤ → Str → BusOption
  replay : Interface → ℤ → ℤ → BusOption
  converters : List Interface → BusOption
  subscription_registry listener observer panic_handler distributed_transport :
      Interface → BusOption

pub apply : BusOption → Config → Result
apply nil_option c = err (text (codes "option cannot be nil"))
apply synchronous_delivery c = with_synchronous_delivery c
apply no_client_expiration c = without_client_expiration c
apply (worker_count n) c = with_worker_count n c
apply (send_attempts n) c = with_send_attempts n c
apply (scheduler_delay n) c = with_scheduler_delay n c
apply (queue_capacities m n) c = with_queue_capacities m n c
apply (retry_backoff m n) c = with_retry_backoff m n c
apply (client_expiration m n) c = with_client_expiration m n c
apply (heartbeat n s) c = with_heartbeat n s c
apply (replay i m n) c = with_replay i m n c
apply (converters is) c = with_converters is c
apply (subscription_registry i) c = with_subscription_registry i c
apply (listener i) c = with_listener i c
apply (observer i) c = with_observer i c
apply (panic_handler i) c = with_panic_handler i c
apply (distributed_transport i) c = with_distributed_transport i c

-- The loop of New over its options.
pub apply_all : List BusOption → Config → Result
apply_all [] c = ok c
apply_all (option ∷ options) c = apply option c >>= apply_all options

pub configure : List BusOption → Result
unfolding apply_all default_config
configure options = apply_all options default_config
