-- ===== src/RequestLine/Tables.antt =====
-- Byte tables that constant functions fill by loops: an array is a function of its index.
use polyform_polyguard.Base.{ℕ, Bytes, ◌==◌, if◌then◌else◌, within, contains}

module _ {ℓ} {A : Type ℓ} where
  -- `table[i] = a`
  abbrev pub set : ℕ → A → (ℕ → A) → ℕ → A
  set i a table byte = if byte == i then a else table byte

  -- `table[i] = a` for each i from `from` to `to`
  abbrev pub set_range : ℕ → ℕ → A → (ℕ → A) → ℕ → A
  set_range from to a table byte = if within from to byte then a else table byte

  -- `table[i] = a` for each i of a list
  abbrev pub set_all : Bytes → A → (ℕ → A) → ℕ → A
  set_all bytes a table byte = if contains bytes byte then a else table byte
