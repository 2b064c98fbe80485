-- ===== src/Prelude/Maps.antt =====
-- `HashMap<Uuid, V>` as a finite partial function, and the numbers that name things.
use Prim.Native.Nat.{ℕ, ◌+◌, ◌*◌, ◌-◌, ◌/◌, ◌^◌, min}
use mathlib.Core.Option.{Option, none, some}
use neosh.Prelude.Tests.{◌==◌, leb, if◌then◌else◌}

-- A `Uuid`, as its 128-bit number. The program only compares them.
abbrev pub Uuid : Type 0
Uuid = ℕ

module _ {ℓ} {V : Type ℓ} where
  abbrev pub empty : Uuid → Option V
  empty _ = none

  -- `HashMap::insert`, and a write through `get_mut`.
  abbrev pub insert : Uuid → V → (Uuid → Option V) → Uuid → Option V
  insert k v m j = if k == j then some v else m j

-- `u64::saturating_add`.
abbrev pub saturating_add : ℕ → ℕ → ℕ
saturating_add a b = min (a + b) (2 ^ 64 - 1)

-- A `SystemTime`, in nanoseconds from a fixed origin, and a `Duration`, in nanoseconds.
abbrev pub SystemTime : Type 0
SystemTime = ℕ

abbrev pub Duration : Type 0
Duration = ℕ

abbrev pub from_secs : ℕ → Duration
from_secs n = n * 1000000000

abbrev pub as_secs : Duration → ℕ
as_secs d = d / 1000000000

-- `now.duration_since(earlier).ok()`.
abbrev pub duration_since : SystemTime → SystemTime → Option Duration
duration_since now earlier = if leb earlier now then some (now - earlier) else none
