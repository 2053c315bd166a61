-- ===== src/Json.antt =====
-- JSON-like Python values (tool arguments, error details) and the pieces of an f-string.
use ros2_mcp_server.Base.{
  true, false, Except, Exception, ok, raised, key_error, ill_typed, ℕ, suc, String, Bool, Option,
  none, some, List, if◌then◌else◌, ◌==◌,
}

-- A `dict` lists its entries in the order of insertion.
mutual
  pub data Json (R : Type 0) : Type 0 where
    null : Json R
    bool : Bool → Json R
    num : R → Json R
    str : String → Json R
    arr : Items R → Json R
    obj : Fields R → Json R

  pub data Items (R : Type 0) : Type 0 where
    nil : Items R
    cons : Json R → Items R → Items R

  pub data Fields (R : Type 0) : Type 0 where
    end : Fields R
    field : String → Json R → Fields R → Fields R

-- The text of a message is kept as its pieces: how Python prints a number is not modelled.
pub data Piece (R : Type 0) : Type 0 where
  text : String → Piece R
  number : R → Piece R  -- {x}
  fixed2 : R → Piece R  -- {x:.2f}
  index : ℕ → Piece R  -- {i}
  repr : Json R → Piece R  -- {value!r}
  names : List String → Piece R  -- {a list of strings}
  exception : Exception → Piece R  -- {exc}

abbrev pub Message : Type 0 → Type 0
Message R = List (Piece R)

module _ {R : Type 0} where
  -- d.get(k): the first entry with the key, since keys are unique in Python.
  unfoldable pub lookup : String → Fields R → Option (Json R)
  lookup k end = none
  lookup k (field j v fs) = if j == k then some v else lookup k fs

  abbrev pub count_items : Items R → ℕ
  count_items nil = 0
  count_items (cons v vs) = suc (count_items vs)

  -- `v is None` for a value that may be absent: JSON's null is Python's None.
  abbrev pub is_missing : Option (Json R) → Bool
  is_missing none = true
  is_missing (some null) = true
  is_missing (some v) = false

  -- A value taken as a number or as a text; any other is ill-typed.
  abbrev pub as_number : Json R → Except R
  as_number (num a) = ok a
  as_number _ = raised (ill_typed "number")

  abbrev pub as_text : Json R → Except String
  as_text (str s) = ok s
  as_text _ = raised (ill_typed "text")

  -- d[key]
  abbrev pub item : String → Option (Json R) → Except (Json R)
  item key none = raised (key_error key)
  item key (some v) = ok v

  -- d.get(key), for a number and for a text.
  abbrev pub optional_number : Option (Json R) → Except (Option R)
  optional_number none = ok none
  optional_number (some null) = ok none
  optional_number (some (num a)) = ok (some a)
  optional_number (some _) = raised (ill_typed "number")

  abbrev pub optional_text : Option (Json R) → Except (Option String)
  optional_text none = ok none
  optional_text (some null) = ok none
  optional_text (some (str s)) = ok (some s)
  optional_text (some _) = raised (ill_typed "text")
