-- ===== src/Validation/Conforms.antt =====
-- What a value that `check_schema` accepts is like, for the schemas of the tools.
use ros2_mcp_server.Base.{
  String, ◌≡◌, refl, Bool, true, false, List, [], ◌∷◌, Option, none, some, is_some, ◌<|>◌, contains,
  ◌==◌, eq_iff, arith, Bool-cases, inl, inr, Option-cases, ok, is_none,
}
use ros2_mcp_server.Number.{Number}
use ros2_mcp_server.Json.{Json, num, str, arr, obj, Fields, end, field, Message, lookup}
use ros2_mcp_server.Json.{is_missing, optional_number}
use ros2_mcp_server.Validation.Schema.{
  Schema, number, Properties, type_of, minimum, maximum, enum, find_property, check_type,
  check_required, check_enum, check_range, check_at, check_fields, sub_path,
}

pub first_none {ℓ} : {A : Type ℓ} (a b : Option A) → (a <|> b) ≡ none → (a ≡ none) × (b ≡ none)
first_none none b h = (refl, h)
first_none (some a) b h = absurd (cc)

module _ {R : Type 0} ⦃n : Number R⦄ where
  open n use {lt}

  -- A required field is present.
  pub check_required-lookup :
      (ks : List String) (fs : Fields R) (path : Message R) (k : String)
      → check_required ks fs path ≡ none
      → contains ks k ≡ true
      → is_some (lookup k fs) ≡ true
  unfolding check_required
  check_required-lookup [] fs path k h m = cc
  check_required-lookup (j ∷ ks) fs path k h m =
      ground (arith, eq_iff j k, check_required-lookup ks fs path k)

  -- A field that the schema knows has a value that its own schema accepts.
  pub check_fields-known :
      (ps : Properties R) (more : Bool) (fs : Fields R) (path : Message R) (k : String) (v : Json R)
      (s : Schema R)
      → check_fields ps more fs path ≡ none
      → lookup k fs ≡ some v
      → find_property k ps ≡ some s
      → check_at s v (sub_path path k) ≡ none
  unfolding check_at lookup
  check_fields-known ps more end path k v s h l f = cc
  check_fields-known ps more (field j w fs) path k v s h l f =
      ground (arith, eq_iff j k, check_fields-known ps more fs path k v s)

  -- Under "additionalProperties": False no other field is there.
  pub check_fields-unknown :
      (ps : Properties R) (fs : Fields R) (path : Message R) (k : String)
      → check_fields ps false fs path ≡ none
      → find_property k ps ≡ none
      → lookup k fs ≡ none
  unfolding check_at lookup
  check_fields-unknown ps end path k h f = refl
  check_fields-unknown ps (field j w fs) path k h f =
      let parts = first_none _ (check_fields ps false fs path) h in
      elim (Bool-cases (j == k)) [
        | inl same ↦
            let unknown : find_property j ps ≡ none = rw ((eq_iff j k).0 same) f in
            let refused = (rw unknown at parts.0) in cc
        | inr other ↦ rw other (check_fields-unknown ps fs path k parts.1 f)
      ]

  check_at_parts :
      (s : Schema R) (v : Json R) (path : Message R)
      → check_at s v path ≡ none
      → (check_type (type_of s) v path ≡ none)
        × (check_enum (enum s) v path ≡ none)
        × (check_range s v path ≡ none)
  unfolding check_at
  check_at_parts s (obj fs) path h =
      let outer = first_none _ _ h in
      let inner = first_none _ _ (first_none _ _ outer.1).1 in (outer.0, inner.0, inner.1)
  check_at_parts s (arr fs) path h =
      let outer = first_none _ _ h in
      let inner = first_none _ _ (first_none _ _ outer.1).1 in (outer.0, inner.0, inner.1)
  check_at_parts s v path h =
      let outer = first_none _ _ h in
      let inner = first_none _ _ outer.1 in (outer.0, inner.0, inner.1)

  check_type-number :
      (v : Json R) (path : Message R)
      → check_type (some number) v path ≡ none
      → (a : R) × (v ≡ num a)
  unfolding check_type
  check_type-number (num a) path e = (a, refl)
  check_type-number _ path e = absurd (cc)

  check_enum-text :
      (allowed : List String) (v : Json R) (path : Message R)
      → check_enum (some allowed) v path ≡ none
      → (x : String) × (v ≡ str x) × (contains allowed x ≡ true)
  unfolding check_enum
  check_enum-text allowed (str x) path e = (x, refl, ground arith)
  check_enum-text allowed _ path e = absurd (cc)

  -- What the type, the enum and the range of a schema say of a value that it accepts.
  pub check_at-number :
      (s : Schema R) (v : Json R) (path : Message R)
      → check_at s v path ≡ none
      → type_of s ≡ some number
      → (a : R) × (v ≡ num a)
  check_at-number s v path h t = check_type-number v path (rw t at (check_at_parts s v path h).0)

  pub check_at-range :
      (s : Schema R) (a : R) (path : Message R)
      → check_at s (num a) path ≡ none
      → type_of s ≡ some number
      → ((m : R) → minimum s ≡ some m → lt a m ≡ false)
        × ((m : R) → maximum s ≡ some m → lt m a ≡ false)
  unfolding check_range
  check_at-range s a path h t =
      let range = (check_at_parts s (num a) path h).2 in (λ m e. ground arith, λ m e. ground arith)

  pub check_at-enum :
      (s : Schema R) (v : Json R) (path : Message R) (allowed : List String)
      → check_at s v path ≡ none
      → enum s ≡ some allowed
      → (x : String) × (v ≡ str x) × (contains allowed x ≡ true)
  unfolding check_enum
  check_at-enum s v path allowed h t =
      check_enum-text allowed v path (rw t at (check_at_parts s v path h).1)

  -- A number that a schema's range allows.
  abbrev pub InRange : Schema R → Option R → Type 0
  InRange s none = Unit
  InRange s (some a) =
      ((m : R) → minimum s ≡ some m → lt a m ≡ false)
      × ((m : R) → maximum s ≡ some m → lt m a ≡ false)

  -- What stands under a key that holds the number, if there is one.
  abbrev pub given : Option R → Option (Json R)
  given none = none
  given (some a) = some (num a)

  -- The number that an accepted object has under a key, if it has one.
  pub record NumberField (s : Schema R) (found : Option (Json R)) (o : Option R) : Type 0 where
    pub read : optional_number found ≡ ok o
    pub in_range : InRange s o
    pub present : is_missing found ≡ is_none o
    pub exact : found ≡ given o

  pub numeric_field :
      (ps : Properties R) (more : Bool) (fs : Fields R) (path : Message R) (k : String)
      (s : Schema R)
      → check_fields ps more fs path ≡ none
      → find_property k ps ≡ some s
      → type_of s ≡ some number
      → (o : Option R) × NumberField s (lookup k fs) o
  numeric_field ps more fs path k s h f t = elim (Option-cases (lookup k fs)) [
    | inl e ↦ (none, rw e (record { read = refl; in_range = tt; present = refl; exact = refl }))
    | inr (v, e) ↦
        let accepted = check_fields-known ps more fs path k v s h e f in
        let (a, is_number) = check_at-number s v (sub_path path k) accepted t in
        let range = check_at-range s a (sub_path path k) (rw is_number at accepted) t in
        (
          some a,
          rw (e, is_number)
              (record { read = refl; in_range = range; present = refl; exact = refl }),
        )
  ]
