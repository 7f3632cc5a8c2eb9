-- ===== src/Base/Slices.antt =====
-- `&bytes[from..to]`, for bounds in order and within the slice, and checked arithmetic.
use Prim.Native.Nat.{ℕ, ◌+◌, ◌*◌}
use mathlib.Core.List.{List}
use mathlib.Core.Option.{Option, none, some}
use package.polyform_polyguard.Base.Tests.{leb, if◌then◌else◌}
use package.polyform_polyguard.Base.Lists.{take, drop}
use package.polyform_polyguard.Base.Text.{u64_max, usize_max}

abbrev pub slice {ℓ} : {A : Type ℓ} → List A → ℕ → ℕ → List A
slice s from to = drop from (take to s)

abbrev pub map_or {ℓ κ} : {A : Type ℓ} {B : Type κ} → Option A → B → (A → B) → B
map_or none b f = b
map_or (some a) b f = f a

abbrev pub unwrap_or {ℓ} : {A : Type ℓ} → Option A → A → A
unwrap_or none d = d
unwrap_or (some a) d = a

abbrev pub and_then {ℓ κ} : {A : Type ℓ} {B : Type κ} → Option A → (A → Option B) → Option B
and_then none f = none
and_then (some a) f = f a

-- `u64::checked_mul` and `u64::checked_add`
abbrev pub checked_mul : ℕ → ℕ → Option ℕ
checked_mul a b = if leb (a * b) u64_max then some (a * b) else none

abbrev pub checked_add : ℕ → ℕ → Option ℕ
checked_add a b = if leb (a + b) u64_max then some (a + b) else none

-- `usize::try_from(value).unwrap_or(usize::MAX)`
abbrev pub to_usize : ℕ → ℕ
to_usize v = if leb v usize_max then v else usize_max
