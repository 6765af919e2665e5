-- ===== src/Registry.antt =====
-- subscription.go: the in-memory subscription registry, a map from event names to sets of client
-- IDs. Each operation runs under the registry's lock, so an operation is one function.
pub mod Laws
pub mod Spec
pub mod Interface
mod Tests
use sse_eventbus_go.Prelude.{
  ℕ, ◌<◌, Bool, true, false, List, [], ◌∷◌, ◌≡◌, Option, none, some, Str, Dict, str_eq, has, add,
  remove, is_empty, Distinct, lookup, insert, delete, keys, AllValues, length, ltb, if◌then◌else◌,
}

abbrev pub Subs : Type 0
Subs = Dict (List Str)

-- NewMemorySubscriptionRegistry
abbrev pub new_memory_subscription_registry : Subs
new_memory_subscription_registry = []

-- `r.subs[event]`: a nil set for an event that is not there.
abbrev pub or_nil : Option (List Str) → List Str
or_nil none = []
or_nil (some clients) = clients

unfoldable pub subscribe : Str → Str → Subs → Subs
unfolding lookup insert
subscribe client_id event r = insert event (add client_id (or_nil (lookup event r))) r

-- What is left of an entry: it goes when its set is empty.
unfoldable pub put_or_delete : Str → List Str → Subs → Subs
unfolding is_empty insert delete
put_or_delete event clients r = if is_empty clients then delete event r else insert event clients r

unfoldable pub unsubscribe : Str → Str → Subs → Subs
unfolding lookup remove
unsubscribe client_id event r = elim (lookup event r) [
  | none ↦ r
  | some clients ↦ put_or_delete event (remove client_id clients) r
]

pub unsubscribe_all : Str → Subs → Subs
unfolding remove is_empty
unsubscribe_all client_id [] = []
unsubscribe_all client_id ((event, clients) ∷ r) =
    let rest = unsubscribe_all client_id r in
    let left = remove client_id clients in if is_empty left then rest else (event, left) ∷ rest

unfoldable pub is_subscribed : Str → Str → Subs → Bool
unfolding lookup has
is_subscribed client_id event r = has client_id (or_nil (lookup event r))

unfoldable pub all_events : Subs → List Str
unfolding keys
all_events r = keys r

-- A copy of the map, with each set as a slice.
abbrev pub all_subscriptions : Subs → Dict (List Str)
all_subscriptions r = r

pub subscribers : Str → Subs → List Str
unfolding lookup
subscribers event r = or_nil (lookup event r)

pub count_subscribers : Str → Subs → ℕ
unfolding lookup
count_subscribers event r = length (or_nil (lookup event r))

pub has_subscribers : Str → Subs → Bool
unfolding count_subscribers
has_subscribers event r = ltb 0 (count_subscribers event r)

-- A set of clients with no repetition and at least one member.
abbrev pub IsClientSet : List Str → Type 0
IsClientSet clients = Distinct clients × (is_empty clients ≡ false)

pub record IsValid (r : Subs) : Type 0 where
  pub distinct : Distinct (keys r)
  pub sets : AllValues IsClientSet r
