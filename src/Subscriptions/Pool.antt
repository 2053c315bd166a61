-- ===== src/Subscriptions/Pool.antt =====
-- src/ros_mcp/subscriptions/manager.py: `PooledSubscriptionManager`. The lock makes each method one
-- step; the task that `ensure_subscribed` starts ends in a later step, and messages come in steps of
-- their own. A message of type M, its conversion by the codec and the stamp of its header are
-- parameters, and so is what the ROS node answers. The QoS profile is not modelled.
use ros2_mcp_server.Base.{
  String, Bool, false, List, [], ◌∷◌, Option, none, some, ◌==◌, if◌then◌else◌, Dict, get, put,
  contains, or_else, Except, ok, raised,
}
use ros2_mcp_server.Number.{Number, nat}

pub record CachedMessage (R V M : Type 0) : Type 0 where
  pub value : V
  pub raw : M
  pub stamp : R
  pub received_at : R
  pub age_s : R

pub record Pool (R V M : Type 0) : Type 0 where
  pub claimed_topics : List String
  pub cache : Dict (CachedMessage R V M)
  pub pending_tasks : List String  -- the topic of each
  pub subscribed : List String  -- the subscriptions that the node holds

-- One occurrence less.
abbrev pub discard : String → List String → List String
discard topic [] = []
discard topic (x ∷ xs) = let rest = discard topic xs in if x == topic then rest else x ∷ rest

abbrev pub drop_one : String → List String → List String
drop_one topic [] = []
drop_one topic (x ∷ xs) = let rest = drop_one topic xs in if x == topic then xs else x ∷ rest

module _ {R V M : Type 0} where
  abbrev pub no_topics : Pool R V M
  no_topics = record { claimed_topics = []; cache = []; pending_tasks = []; subscribed = [] }

  unfoldable pub ensure_subscribed : String → Pool R V M → Pool R V M
  ensure_subscribed topic p = if contains p.claimed_topics topic then p else record p {
    claimed_topics = topic ∷ p.claimed_topics;
    pending_tasks = topic ∷ p.pending_tasks;
  }

  abbrev answer : String → Except (Unit {0}) → Pool R V M → Pool R V M
  answer topic (ok _) p = record p { subscribed = topic ∷ p.subscribed }
  answer topic (raised e) p = record p { claimed_topics = discard topic p.claimed_topics }

  -- The end of `_do_subscribe`, with the node's answer.
  unfoldable pub do_subscribe : String → Except (Unit {0}) → Pool R V M → Pool R V M
  do_subscribe topic result p =
      if contains p.pending_tasks topic
      then answer topic result (record p { pending_tasks = drop_one topic p.pending_tasks })
      else p

module _ {R V M : Type 0} ⦃n : Number R⦄ where
  open n use {le, plus, minus, over}

  module _ (to_dict : M → V) (header_stamp : M → Option (Option R × Option R)) where
    abbrev seconds : Option (Option R × Option R) → Option R
    seconds (some (some sec, some nanosec)) = some (plus sec (over nanosec (nat 1000000000)))
    seconds _ = none

    abbrev extract_stamp : M → Option R
    extract_stamp msg = seconds (header_stamp msg)

    -- The callback of a subscription; a topic without one gets no message.
    unfoldable pub on_message : String → M → R → Pool R V M → Pool R V M
    on_message topic msg now p =
        if contains p.subscribed topic
        then record p {
          cache =
              put topic
                (record {
                  value = to_dict msg;
                  raw = msg;
                  stamp = or_else (extract_stamp msg) now;
                  received_at = now;
                  age_s = nat 0;
                })
                p.cache;
        }
        else p

  unfoldable pub get_latest : String → R → Pool R V M → Option (CachedMessage R V M)
  get_latest topic now p = elim (get topic p.cache) [
    | none ↦ none
    | some cached ↦ some (record cached { age_s = minus now cached.received_at })
  ]

  unfoldable pub is_fresh : String → R → R → Pool R V M → Bool
  is_fresh topic max_age_s now p = elim (get_latest topic now p) [
    | none ↦ false
    | some cached ↦ le cached.age_s max_age_s
  ]
