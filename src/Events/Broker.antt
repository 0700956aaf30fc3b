-- ===== src/Events/Broker.antt =====
-- packages/webrun-http-events/src/broker.ts. A topic, a subscriber, an event's name and its data are only
-- passed on and compared, so numbers stand for them. A topic's state is an object, which the functions
-- that `subscribe` returns refer to: `ref` numbers these objects in the order of their creation.
use webrun_wire.Common.{ℕ, suc, ◌+◌, ◌-◌, List, [], ◌∷◌, ◌++◌, map, length, Option, none, some}
use webrun_wire.Common.{Bool, true, false, not, ◌&&◌, ◌==◌, ltb, leb, if◌then◌else◌}
use webrun_wire.Common.Maps.{map_get, map_set, map_delete}
pub mod Log
pub mod Keeping
pub mod Replay

pub record BrokerEvent : Type 0 where
  pub id : ℕ
  pub payload : ℕ
  pub event : Option ℕ

pub record TopicState : Type 0 where
  pub ref : ℕ
  pub next_id : ℕ
  pub buffer : List BrokerEvent
  pub subscribers : List ℕ

pub record Broker : Type 0 where
  pub buffer_size : ℕ
  pub next_ref : ℕ
  pub topics : List (ℕ × TopicState)

abbrev pub new_broker : ℕ → Broker
new_broker buffer_size = record { buffer_size = buffer_size; next_ref = 0; topics = [] }

-- `state`: the topic's state, made where there is none.
abbrev pub state_of : Option TopicState → ℕ → Broker → TopicState × Broker
state_of (some s) topic b = (s, b)
state_of none topic b =
    let s : TopicState = record { ref = b.next_ref; next_id = 1; buffer = []; subscribers = [] } in
    (s, record b { next_ref = suc b.next_ref; topics = map_set topic s b.topics })

unfoldable pub state : ℕ → Broker → TopicState × Broker
state topic b = state_of (map_get topic b.topics) topic b

-- `Set.add` and `Set.delete`.
unfoldable pub set_add : ℕ → List ℕ → List ℕ
set_add f [] = f ∷ []
set_add f (g ∷ gs) = if g == f then g ∷ gs else g ∷ set_add f gs

unfoldable pub set_delete : ℕ → List ℕ → List ℕ
set_delete f [] = []
set_delete f (g ∷ gs) = if g == f then set_delete f gs else g ∷ set_delete f gs

-- `Array.shift` of a buffer that is too long.
abbrev pub shift_above : ℕ → List BrokerEvent → List BrokerEvent
shift_above size [] = []
shift_above size (e ∷ es) = if ltb size (length (e ∷ es)) then es else e ∷ es

-- The event takes the next id and goes to the end of the ring.
abbrev pub retain : ℕ → BrokerEvent → TopicState → TopicState
retain size e s = record s {
  next_id = suc s.next_id;
  buffer = shift_above size (s.buffer ++ (e ∷ []));
}

-- `publish`: the event, and the subscribers that are called with it, in order. One that throws is
-- reported and does not keep the others from being called.
unfoldable pub publish : ℕ → ℕ → Option ℕ → Broker → BrokerEvent × List ℕ × Broker
publish topic payload event b =
    let p = state topic b in
    let s = p.0 in
    let e : BrokerEvent = record { id = s.next_id; payload = payload; event = event } in
    (
      e,
      s.subscribers,
      record (p.1) { topics = map_set topic (retain b.buffer_size e s) (p.1).topics },
    )

-- `subscribe`: the object that the returned function will refer to.
unfoldable pub subscribe : ℕ → ℕ → Broker → ℕ × Broker
subscribe topic f b =
    let p = state topic b in
    let s = p.0 in
    (
      s.ref,
      record (p.1) {
        topics = map_set topic (record s { subscribers = set_add f s.subscribers }) (p.1).topics;
      },
    )

abbrev pub is_empty {ℓ} : {A : Type ℓ} → List A → Bool
is_empty [] = true
is_empty (x ∷ xs) = false

-- `prune`, on the state that the table holds.
abbrev pub put_or_prune : ℕ → TopicState → Broker → Broker
put_or_prune topic s b = record b {
  topics =
      if is_empty s.subscribers && is_empty s.buffer
      then map_delete topic b.topics
      else map_set topic s b.topics;
}

-- The function that `subscribe` returned. An object that the table no longer holds is changed without
-- effect on the table.
abbrev pub leave : Option TopicState → ℕ → ℕ → ℕ → Broker → Broker
leave none topic ref f b = b
leave (some s) topic ref f b =
    if s.ref == ref
    then put_or_prune topic (record s { subscribers = set_delete f s.subscribers }) b
    else b

unfoldable pub unsubscribe : ℕ → ℕ → ℕ → Broker → Broker
unsubscribe topic ref f b = leave (map_get topic b.topics) topic ref f b

abbrev pub newer : ℕ → List BrokerEvent → List BrokerEvent
newer after_id [] = []
newer after_id (e ∷ es) = if ltb after_id e.id then e ∷ newer after_id es else newer after_id es

abbrev pub oldest_id : ℕ → List BrokerEvent → ℕ
oldest_id next_id [] = next_id
oldest_id next_id (e ∷ es) = e.id

-- `replay`: the events, and whether they are the whole story. Ids start at 1, so subtracting is exact.
abbrev pub replay_of : Option TopicState → ℕ → List BrokerEvent × Bool
replay_of none after_id = ([], leb after_id 0)
replay_of (some s) after_id = (
  newer after_id s.buffer,
  leb (oldest_id s.next_id s.buffer - 1) after_id && leb after_id (s.next_id - 1),
)

unfoldable pub replay : ℕ → ℕ → Broker → List BrokerEvent × Bool
replay topic after_id b = replay_of (map_get topic b.topics) after_id

unfoldable pub subscriber_count : ℕ → Broker → ℕ
subscriber_count topic b = elim (map_get topic b.topics) [
  | none ↦ 0
  | some s ↦ length s.subscribers
]

unfoldable pub topic_count : Broker → ℕ
topic_count b = length b.topics

pub data Op : Type 0 where
  publish_op : (topic payload : ℕ) → Option ℕ → Op
  subscribe_op : (topic f : ℕ) → Op
  unsubscribe_op : (topic ref f : ℕ) → Op

unfoldable pub step : Op → Broker → Broker
step (publish_op topic payload event) b = (publish topic payload event b).2
step (subscribe_op topic f) b = (subscribe topic f b).1
step (unsubscribe_op topic ref f) b = unsubscribe topic ref f b

unfoldable pub run : List Op → Broker → Broker
run [] b = b
run (o ∷ os) b = run os (step o b)
