-- ===== src/Nasshp/Absolute.antt =====
-- ToAbsolute of proxy/nasshp/window.go: a 24-bit position of the protocol, as the 64-bit position
-- that is nearest to a reference.
use enkit.Common.{
  ℕ, ◌+◌, ◌-◌, ◌*◌, ◌/◌, ◌%◌, ◌≤◌, ◌<◌, ◌≡◌, ◌⊎◌, ◌&&◌, if◌then◌else◌, ltb, leb, arith,
}
use enkit.Common.Words.{u64_mod, add64}
use enkit.Common.Bits.{bit_or-disjoint}
use Prim.Native.Nat.{bit_or}

-- 0x1000000, the number of positions of 24 bits.
abbrev pub wrap : ℕ
wrap = 16777216

-- The distance that the source computes; it is one short where the position has wrapped.
unfoldable pub distance : ℕ → ℕ → ℕ
distance base trunc = if leb base trunc then trunc - base else wrap - (base - trunc + 1)

unfoldable pub to_absolute : ℕ → ℕ → ℕ
unfolding distance
to_absolute reference trunc =
    let base = reference % wrap in
    let diff = distance base trunc in
    let topbits = reference / wrap * wrap in
    if ltb 0x7fffff diff && ltb base trunc && ltb wrap topbits
    then bit_or (topbits - wrap) trunc
    else (if leb diff 0x7fffff && ltb trunc base
        then bit_or (add64 topbits wrap) trunc
        else bit_or topbits trunc)

or_low : (a b : ℕ) → b < wrap → bit_or (a * wrap) b ≡ a * wrap + b
or_low a b h = bit_or-disjoint 24 a b h

or_top : (t a b : ℕ) → t ≡ a * wrap → b < wrap → bit_or t b ≡ t + b
or_top t a b e h = rw e (or_low a b h)

-- A position within 2^23 - 1 of the reference is recovered from its low 24 bits, unless it lies
-- before the reference and the reference is below 2^25; the reference is 2^24 short of 2^64.
pub to_absolute-mod :
    (reference value : ℕ)
    → reference ≤ value + 0x7fffff
    → value ≤ reference + 0x7fffff
    → reference + wrap < u64_mod
    → ((2 * wrap ≤ reference) ⊎ (reference ≤ value))
    → to_absolute reference (value % wrap) ≡ value
unfolding to_absolute add64
to_absolute-mod reference value near far small side = ground (
  arith,
  or_top (reference / wrap * wrap - wrap) (reference / wrap - 1) (value % wrap),
  or_top ((reference / wrap * wrap + wrap) % u64_mod) (reference / wrap + 1) (value % wrap),
  or_low (reference / wrap) (value % wrap),
)

-- In the second block of 2^24 bytes a position that lies shortly before, in the first block, is
-- taken for one that lies 2^24 bytes later.
pub to_absolute_late :
    (reference value : ℕ)
    → wrap ≤ reference
    → value < wrap
    → reference < value + 0x7fffff
    → to_absolute reference (value % wrap) ≡ value + wrap
unfolding to_absolute add64
to_absolute_late reference value second first near = ground (
  arith,
  or_top (reference / wrap * wrap - wrap) (reference / wrap - 1) (value % wrap),
  or_top ((reference / wrap * wrap + wrap) % u64_mod) (reference / wrap + 1) (value % wrap),
  or_low (reference / wrap) (value % wrap),
)
