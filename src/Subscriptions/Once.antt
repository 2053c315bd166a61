-- ===== src/Subscriptions/Once.antt =====
-- The promise of `ensure_subscribed` in subscriptions/manager.py, over every history: a topic has one
-- subscription, made or being made, exactly while it is claimed.
use ros2_mcp_server.Base.{
  ℕ, suc, ◌+◌, String, ◌≡◌, refl, Bool, true, false, List, [], ◌∷◌, ◌==◌, eq_iff, if◌then◌else◌,
  contains, Except, ok, raised, Option, arith,
}
use ros2_mcp_server.Number.{Number}
use ros2_mcp_server.Subscriptions.Pool.{
  Pool, discard, drop_one, no_topics, ensure_subscribed, do_subscribe, on_message,
}

abbrev pub count : String → List String → ℕ
count t [] = 0
count t (x ∷ xs) = let rest = count t xs in if x == t then suc rest else rest

abbrev pub one_if : Bool → ℕ
one_if true = 1
one_if false = 0

count-drop_one :
    (t u : String) (xs : List String)
    → contains xs t ≡ true
    → count u (drop_one t xs) + one_if (t == u) ≡ count u xs
count-drop_one t u [] h = cc
count-drop_one t u (x ∷ xs) h =
    ground (arith, eq_iff x t, eq_iff t u, eq_iff x u, count-drop_one t u xs)

contains-discard :
    (t u : String) (xs : List String)
    → contains (discard t xs) u ≡ (if t == u then false else contains xs u)
contains-discard t u [] = ground arith
contains-discard t u (x ∷ xs) =
    ground (arith, eq_iff x t, eq_iff t u, eq_iff x u, contains-discard t u xs)

module _ {R V M : Type 0} where
  -- A topic is subscribed or about to be subscribed once if it is claimed, and else not at all.
  abbrev pub IsOnce : Pool R V M → String → Type 0
  IsOnce p t = count t p.pending_tasks + count t p.subscribed ≡ one_if (contains p.claimed_topics t)

  ensure_subscribed-IsOnce :
      (topic t : String) (p : Pool R V M) → IsOnce p t → IsOnce (ensure_subscribed topic p) t
  unfolding ensure_subscribed
  ensure_subscribed-IsOnce topic t p h = ground (arith, eq_iff topic t, h)

  do_subscribe-IsOnce :
      (topic t : String) (r : Except (Unit {0})) (p : Pool R V M)
      → IsOnce p t
      → IsOnce (do_subscribe topic r p) t
  unfolding do_subscribe
  do_subscribe-IsOnce topic t (ok _) p h =
      ground (arith, eq_iff topic t, h, count-drop_one topic t p.pending_tasks)
  do_subscribe-IsOnce topic t (raised e) p h = ground (
    arith,
    eq_iff topic t,
    h,
    count-drop_one topic t p.pending_tasks,
    contains-discard topic t p.claimed_topics,
  )

pub data PoolEvent (R M : Type 0) : Type 0 where
  ensures : String → PoolEvent R M
  answers : String → Except (Unit {0}) → PoolEvent R M
  receives : String → M → R → PoolEvent R M

module _ {R V M : Type 0} ⦃n : Number R⦄ (to_dict : M → V)
    (header_stamp : M → Option (Option R × Option R)) where
  unfoldable pub pool_step : Pool R V M → PoolEvent R M → Pool R V M
  pool_step p (ensures topic) = ensure_subscribed topic p
  pool_step p (answers topic r) = do_subscribe topic r p
  pool_step p (receives topic msg now) = on_message to_dict header_stamp topic msg now p

  unfoldable pub pool_run : Pool R V M → List (PoolEvent R M) → Pool R V M
  pool_run p [] = p
  pool_run p (e ∷ es) = pool_run (pool_step p e) es

  on_message-IsOnce :
      (topic t : String) (msg : M) (now : R) (p : Pool R V M)
      → IsOnce p t
      → IsOnce (on_message to_dict header_stamp topic msg now p) t
  unfolding on_message
  on_message-IsOnce topic t msg now p h = ground (arith, h)

  pool_step-IsOnce :
      (p : Pool R V M) (e : PoolEvent R M) (t : String) → IsOnce p t → IsOnce (pool_step p e) t
  unfolding pool_step
  pool_step-IsOnce p (ensures topic) t h = ensure_subscribed-IsOnce topic t p h
  pool_step-IsOnce p (answers topic r) t h = do_subscribe-IsOnce topic t r p h
  pool_step-IsOnce p (receives topic msg now) t h = on_message-IsOnce topic t msg now p h

  pool_run_from-IsOnce :
      (p : Pool R V M) (es : List (PoolEvent R M)) (t : String)
      → IsOnce p t
      → IsOnce (pool_run p es) t
  unfolding pool_run
  pool_run_from-IsOnce p [] t h = h
  pool_run_from-IsOnce p (e ∷ es) t h =
      pool_run_from-IsOnce (pool_step p e) es t (pool_step-IsOnce p e t h)

  -- After any history of claims, answers of the node and messages, a topic has exactly one
  -- subscription, made or being made, if it is claimed, and none otherwise: it is never subscribed
  -- twice, and a failed attempt frees it.
  pub pool_run-IsOnce : (es : List (PoolEvent R M)) (t : String) → IsOnce (pool_run no_topics es) t
  pool_run-IsOnce es t = pool_run_from-IsOnce no_topics es t refl
