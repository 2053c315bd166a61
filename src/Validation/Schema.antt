-- ===== src/Validation/Schema.antt =====
-- src/ros_mcp/validation/schema_check.py. A schema is its keywords: `type`, `properties`, `required`,
-- `additionalProperties`, `items`, `maxItems`, `enum` (of strings, as every enum of the program is),
-- `minimum` and `maximum`; a keyword that is absent has its default. Only the six type names that
-- `_TYPE_CHECKERS` lists can be written.
use ros2_mcp_server.Base.{
  ℕ, ◌+◌, String, Bool, true, false, List, [], ◌∷◌, ◌++◌, Option, none, some, is_some, ltb,
  if◌then◌else◌, ◌<|>◌, contains, ◌==◌,
}
use ros2_mcp_server.Number.{Number}
use ros2_mcp_server.Json.{
  Json, null, bool, num, str, arr, obj, Items, nil, cons, Fields, end, field, Message, Piece, text,
  index, repr, names, lookup, count_items,
}

pub data SchemaType : Type 0 where
  string number integer boolean array object : SchemaType

-- The keyword as it is written in a schema.
unfoldable pub type_name : SchemaType → String
type_name string = "string"
type_name number = "number"
type_name integer = "integer"
type_name boolean = "boolean"
type_name array = "array"
type_name object = "object"

abbrev is_numeric : Option SchemaType → Bool
is_numeric (some number) = true
is_numeric (some integer) = true
is_numeric _ = false

abbrev pub is_object : Option SchemaType → Bool
is_object (some object) = true
is_object _ = false

abbrev pub is_array : Option SchemaType → Bool
is_array (some array) = true
is_array _ = false

mutual
  pub data Schema (R : Type 0) : Type 0 where
    schema :
        Option SchemaType
        → Properties R
        → List String
        → Bool
        → ItemsSchema R
        → Option ℕ
        → Option (List String)
        → Option R
        → Option R
        → Schema R

  pub data Properties (R : Type 0) : Type 0 where
    no_more : Properties R
    property : String → Schema R → Properties R → Properties R

  pub data ItemsSchema (R : Type 0) : Type 0 where
    no_items : ItemsSchema R
    items : Schema R → ItemsSchema R

module _ {R : Type 0} where
  abbrev pub type_of : Schema R → Option SchemaType
  type_of (schema ty ps rs more is cap en lo hi) = ty

  abbrev pub properties : Schema R → Properties R
  properties (schema ty ps rs more is cap en lo hi) = ps

  abbrev pub required : Schema R → List String
  required (schema ty ps rs more is cap en lo hi) = rs

  abbrev pub additional_allowed : Schema R → Bool
  additional_allowed (schema ty ps rs more is cap en lo hi) = more

  abbrev pub items_schema : Schema R → ItemsSchema R
  items_schema (schema ty ps rs more is cap en lo hi) = is

  abbrev pub max_items : Schema R → Option ℕ
  max_items (schema ty ps rs more is cap en lo hi) = cap

  abbrev pub enum : Schema R → Option (List String)
  enum (schema ty ps rs more is cap en lo hi) = en

  abbrev pub minimum : Schema R → Option R
  minimum (schema ty ps rs more is cap en lo hi) = lo

  abbrev pub maximum : Schema R → Option R
  maximum (schema ty ps rs more is cap en lo hi) = hi

  unfoldable pub find_property : String → Properties R → Option (Schema R)
  find_property k no_more = none
  find_property k (property j s ps) = if j == k then some s else find_property k ps

module _ {R : Type 0} ⦃n : Number R⦄ where
  open n use {lt, is_int}

  -- _TYPE_CHECKERS
  abbrev pub has_type : SchemaType → Json R → Bool
  has_type string (str s) = true
  has_type number (num a) = true
  has_type integer (num a) = is_int a
  has_type boolean (bool b) = true
  has_type array (arr vs) = true
  has_type object (obj fs) = true
  has_type _ _ = false

  unfoldable pub python_type : Json R → String
  python_type null = "NoneType"
  python_type (bool b) = "bool"
  python_type (num a) = if is_int a then "int" else "float"
  python_type (str s) = "str"
  python_type (arr vs) = "list"
  python_type (obj fs) = "dict"

  unfoldable pub check_type : Option SchemaType → Json R → Message R → Option (Message R)
  unfolding type_name python_type
  check_type none v path = none
  check_type (some ty) v path =
      if has_type ty v
      then none
      else some (
          path
          ++ text ": expected type "
            ∷ text (type_name ty)
            ∷ text ", got "
            ∷ text (python_type v)
            ∷ [])

  unfoldable pub check_required : List String → Fields R → Message R → Option (Message R)
  check_required [] fs path = none
  check_required (k ∷ ks) fs path =
      if is_some (lookup k fs)
      then check_required ks fs path
      else some (path ++ text ": missing required field '" ∷ text k ∷ text "'" ∷ [])

  in_enum : Json R → List String → Bool
  in_enum (str s) allowed = contains allowed s
  in_enum _ allowed = false

  unfoldable pub check_enum : Option (List String) → Json R → Message R → Option (Message R)
  unfolding in_enum
  check_enum none v path = none
  check_enum (some allowed) v path =
      if in_enum v allowed
      then none
      else some (path ++ text ": " ∷ repr v ∷ text " not in allowed values " ∷ names allowed ∷ [])

  check_minimum : Option R → R → Message R → Option (Message R)
  check_minimum none a path = none
  check_minimum (some m) a path =
      if lt a m
      then some (path ++ text ": " ∷ Piece.number a ∷ text " < minimum " ∷ Piece.number m ∷ [])
      else none

  check_maximum : Option R → R → Message R → Option (Message R)
  check_maximum none a path = none
  check_maximum (some m) a path =
      if lt m a
      then some (path ++ text ": " ∷ Piece.number a ∷ text " > maximum " ∷ Piece.number m ∷ [])
      else none

  unfoldable pub check_range : Schema R → Json R → Message R → Option (Message R)
  unfolding check_minimum check_maximum
  check_range s (num a) path =
      if is_numeric (type_of s)
      then check_minimum (minimum s) a path <|> check_maximum (maximum s) a path
      else none
  check_range s _ path = none

  pub check_length : Option ℕ → ℕ → Message R → Option (Message R)
  check_length none k path = none
  check_length (some cap) k path =
      if ltb cap k
      then some (path ++ text ": array longer than maxItems=" ∷ index cap ∷ [])
      else none

  abbrev pub sub_path : Message R → String → Message R
  sub_path path k = path ++ text "." ∷ text k ∷ []

  abbrev pub item_path : Message R → ℕ → Message R
  item_path path i = path ++ text "[" ∷ index i ∷ text "]" ∷ []

  -- `_check`: the first failing test gives the error. A value's parts are checked under the schema
  -- that `properties` or `items` has for them.
  unfoldable mutual
    pub check_at : Schema R → Json R → Message R → Option (Message R)
    check_at s (obj fs) path =
        check_type (type_of s) (obj fs) path
        <|> (if is_object (type_of s)
            then check_required (required s) fs path
              <|> check_fields (properties s) (additional_allowed s) fs path
            else none)
        <|> check_enum (enum s) (obj fs) path
        <|> check_range s (obj fs) path
    check_at s (arr vs) path =
        check_type (type_of s) (arr vs) path
        <|> (if is_array (type_of s)
            then check_length (max_items s) (count_items vs) path
              <|> check_items (items_schema s) vs path 0
            else none)
        <|> check_enum (enum s) (arr vs) path
        <|> check_range s (arr vs) path
    check_at s v path =
        check_type (type_of s) v path <|> check_enum (enum s) v path <|> check_range s v path

    pub check_fields : Properties R → Bool → Fields R → Message R → Option (Message R)
    check_fields ps more end path = none
    check_fields ps more (field k v fs) path =
        (elim (find_property k ps) [
          | some s ↦ check_at s v (sub_path path k)
          | none ↦
              if more
              then none
              else some (path ++ text ": unexpected field '" ∷ text k ∷ text "'" ∷ [])
        ])
        <|> check_fields ps more fs path

    pub check_items : ItemsSchema R → Items R → Message R → ℕ → Option (Message R)
    check_items no_items vs path i = none
    check_items (items s) nil path i = none
    check_items (items s) (cons v vs) path i =
        check_at s v (item_path path i) <|> check_items (items s) vs path (i + 1)

  unfoldable pub check_schema : Schema R → Json R → Option (Message R)
  check_schema s v = check_at s v (text "$" ∷ [])
