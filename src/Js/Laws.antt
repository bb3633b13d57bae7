-- ===== src/Js/Laws.antt =====
-- Laws of property writes, reads and spreads.
use v.Prelude.{String, ◌≡◌, refl, Bool, false, if◌then◌else◌, ◌===◌, ◌||◌, eq_iff, arith}
use v.Js.{Value, Fields, lookup_field, assign, spread_fields}

pub lookup-assign :
    (k j : String) (x : Value) (fs : Fields)
    → lookup_field j (assign k x fs) ≡ (if k === j then x else lookup_field j fs)
unfolding lookup_field assign
lookup-assign k j x Fields.end = refl
lookup-assign k j x (Fields.field i w fs) =
    ground (arith, eq_iff k j, eq_iff i k, eq_iff i j, lookup-assign k j x fs)

-- Whether an object has an own property.
abbrev pub has_field : String → Fields → Bool
has_field k Fields.end = false
has_field k (Fields.field j v fs) = j === k || has_field k fs

-- A spread leaves the properties that it does not copy.
pub lookup-spread_fields :
    (j : String) (base extra : Fields)
    → has_field j extra ≡ false
    → lookup_field j (spread_fields base extra) ≡ lookup_field j base
unfolding spread_fields
lookup-spread_fields j base Fields.end h = refl
lookup-spread_fields j base (Fields.field k x extra) h =
    ground (arith, lookup-spread_fields j (assign k x base) extra, lookup-assign k j x base)
