-- ===== src/Base/Sorting.antt =====
-- Python's `sorted` on texts, by code points.
use Prim.Native.Nat.{Ordering}
use Prim.Native.String.{String, compare}
use mathlib.Core.Bool.{Bool, true, false}
use mathlib.Core.List.{List, [], ◌∷◌}
use ros2_mcp_server.Base.Tests.{if◌then◌else◌}

-- s <= t
abbrev pub text_le : String → String → Bool
text_le s t = elim (compare s t) [ Ordering.gt ↦ false | _ ↦ true ]

abbrev pub insert_text : String → List String → List String
insert_text s [] = s ∷ []
insert_text s (t ∷ ts) = let rest = insert_text s ts in if text_le s t then s ∷ t ∷ ts else t ∷ rest

abbrev pub sorted : List String → List String
sorted [] = []
sorted (s ∷ ss) = insert_text s (sorted ss)
