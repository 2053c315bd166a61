-- ===== src/Capabilities/Registry.antt =====
-- src/ros_mcp/capabilities/registry.py. The lock makes each method one step. A registered callback
-- is a number; `update` returns those that it calls, in order, beside its result.
use ros2_mcp_server.Base.{
  ℕ, ◌+◌, String, Bool, true, false, List, [], ◌∷◌, ◌++◌, Option, ◌==◌, if◌then◌else◌, find,
}
use ros2_mcp_server.Contracts.Discovery.{CapabilityEntry}

pub record Registry (R : Type 0) : Type 0 where
  pub entries : List (CapabilityEntry R)
  pub version : ℕ
  pub callbacks : List ℕ

module _ {R : Type 0} where
  abbrev pub empty : Registry R
  empty = record { entries = []; version = 0; callbacks = [] }

  -- `get` on the entries: the first with the id.
  abbrev pub find_entry : String → List (CapabilityEntry R) → Option (CapabilityEntry R)
  find_entry capability_id = find (λ e. e.capability_id == capability_id)

  unfoldable pub get : String → Registry R → Option (CapabilityEntry R)
  get capability_id r = find_entry capability_id r.entries

  unfoldable pub on_changed : ℕ → Registry R → Registry R
  on_changed callback r = record r { callbacks = r.callbacks ++ callback ∷ [] }

  -- `same` is Python's `==` on tuples of entries.
  module _ (same : List (CapabilityEntry R) → List (CapabilityEntry R) → Bool) where
    unfoldable pub update : List (CapabilityEntry R) → Registry R → Registry R × List ℕ × Bool
    update entries r =
        if same entries r.entries
        then (r, [], false)
        else (record r { entries = entries; version = r.version + 1 }, r.callbacks, true)
