-- ===== src/Prelude/Json.antt =====
-- JSON as Python's json module reads it, and how Python tests and looks up what it read.
use mathlib.Core.Bool.{Bool, true, false}
use mathlib.Core.Option.{Option, none, some}
use cognition_devin_automati.Prelude.Texts.{Text, text_eq, nonempty}

-- A number is held as its text, and whether it is other than zero. No key of a dict stands twice in
-- what Python reads.
mutual
  pub data Json : Type 0 where
    null : Json
    boolean : Bool → Json
    number : Bool → Text → Json
    string : Text → Json
    array : Items → Json
    object : Members → Json

  pub data Items : Type 0 where
    no_items : Items
    item : Json → Items → Items

  pub data Members : Type 0 where
    no_members : Members
    entry : Text → Json → Members → Members

-- `if v:`
unfoldable pub is_true : Json → Bool
is_true null = false
is_true (boolean b) = b
is_true (number other_than_zero literal) = other_than_zero
is_true (string s) = nonempty s
is_true (array no_items) = false
is_true (array (item v vs)) = true
is_true (object no_members) = false
is_true (object (entry k v ms)) = true

-- The value of a key.
unfoldable pub lookup : Text → Members → Option Json
lookup key no_members = none
lookup key (entry k v ms) = elim (text_eq k key) [ true ↦ some v | false ↦ lookup key ms ]

-- `v.get(key)`: only a dict has it, and an exception is `none`.
unfoldable pub get_key : Text → Json → Option (Option Json)
unfolding lookup
get_key key (object ms) = some (lookup key ms)
get_key key _ = none
