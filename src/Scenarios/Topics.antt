-- ===== src/Scenarios/Topics.antt =====
-- Claims of topics, of which one fails and is repeated. A message is a number.
use ros2_mcp_server.Base.{ℕ, ◌≡◌, refl, List, [], ◌∷◌, Option, none, ok, raised, value_error}
use ros2_mcp_server.Number.Fixed.{ℤ, fixed}
use ros2_mcp_server.Subscriptions.Pool.{Pool, no_topics, is_fresh}
use ros2_mcp_server.Subscriptions.Once.{
  PoolEvent, ensures, answers, receives, IsOnce, pool_run, pool_run-IsOnce,
}
use ros2_mcp_server.Scenarios.Data.{m}

abbrev no_stamp : ℕ → Option (Option ℤ × Option ℤ)
no_stamp msg = none

abbrev claims : List (PoolEvent ℤ ℕ)
claims =
    ensures "/scan"
    ∷ ensures "/scan"
    ∷ answers "/scan" (raised (value_error "no such type"))
    ∷ ensures "/scan"
    ∷ answers "/scan" (ok tt)
    ∷ answers "/scan" (ok tt)
    ∷ receives "/scan" 7 (m 1)
    ∷ []

abbrev after_claims : Pool ℤ ℕ ℕ
after_claims = pool_run (λ msg. msg) no_stamp no_topics claims

one_subscription : after_claims.subscribed ≡ "/scan" ∷ []
unfolding pool_run ros2_mcp_server.Subscriptions.Once.pool_step
    ros2_mcp_server.Subscriptions.Pool.on_message ros2_mcp_server.Subscriptions.Pool.do_subscribe
    ros2_mcp_server.Subscriptions.Pool.ensure_subscribed
one_subscription = refl

pool_run-IsOnce_example : IsOnce after_claims "/scan"
pool_run-IsOnce_example = pool_run-IsOnce (λ msg. msg) no_stamp claims "/scan"
