-- ===== src/Base/Texts.antt =====
-- Concatenation of texts and Python's `rstrip` of a slash.
use Prim.Native.Nat.{ℕ, zero, suc}
use Prim.Native.String.{String, len, slice, ◌++◌}
use text.Mathlib.Text.{◌==◌}
use ros2_mcp_server.Base.Tests.{if◌then◌else◌}

-- s + t
abbrev pub concat : String → String → String
concat s t = s ++ t

-- The first `k` bytes without the slashes at their end.
abbrev rstrip_upto : ℕ → String → String
rstrip_upto zero s = ""
rstrip_upto (suc k) s =
    let rest = rstrip_upto k s in if slice s k (suc k) == "/" then rest else slice s 0 (suc k)

-- s.rstrip("/")
abbrev pub rstrip_slash : String → String
rstrip_slash s = rstrip_upto (len s) s
