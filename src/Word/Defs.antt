-- ===== src/Word/Defs.antt =====
-- `os_size_t` of a 64-bit target: a number below 2 ^ 64 with the wrap-around of C written out, and
-- the macros of include/os_def.h over it.
use dreamos_cversion.Base.{
  ℕ, zero, suc, ◌+◌, ◌-◌, ◌*◌, ◌/◌, ◌%◌, ◌^◌, bit_and, Bool, ltb, ◌==◌, if◌then◌else◌,
}

-- One more than the largest `os_size_t`.
abbrev pub size_mod : ℕ
size_mod = 2 ^ 64

-- OS_NUMBER_MAX(os_size_t)
abbrev pub number_max : ℕ
number_max = 2 ^ 64 - 1

-- + and - on `os_size_t`
abbrev pub add_size : ℕ → ℕ → ℕ
add_size a b = (a + b) % size_mod

abbrev pub sub_size : ℕ → ℕ → ℕ
sub_size a b = (a + size_mod - b) % size_mod

-- ~ on `os_size_t`
abbrev pub not_size : ℕ → ℕ
not_size a = number_max - a

-- << and >> on `os_size_t`, for a shift below 64
abbrev pub shl : ℕ → ℕ → ℕ
shl a k = (a * 2 ^ k) % size_mod

abbrev pub shr : ℕ → ℕ → ℕ
shr a k = a / 2 ^ k

-- SIZE, MASK
abbrev pub size : ℕ → ℕ
size bits = shl 1 bits

abbrev pub mask : ℕ → ℕ
mask bits = sub_size (size bits) 1

-- MASK_VALUE, UMASK_VALUE
abbrev pub mask_value : ℕ → ℕ → ℕ
mask_value value m = bit_and value m

abbrev pub umask_value : ℕ → ℕ → ℕ
umask_value value m = bit_and value (not_size m)

-- ALIGN_UP, ALIGN_DOWN
abbrev pub align_up : ℕ → ℕ → ℕ
align_up value bound = bit_and (add_size value (sub_size bound 1)) (not_size (sub_size bound 1))

abbrev pub align_down : ℕ → ℕ → ℕ
align_down value bound = bit_and value (not_size (sub_size bound 1))

-- The position of the highest bit, for a number below 2 ^ (fuel + 1); 63 - __builtin_clzl.
unfoldable pub log2 : (fuel : ℕ) → ℕ → ℕ
log2 zero value = 0
log2 (suc fuel) value = let rest = log2 fuel (value / 2) in if ltb value 2 then 0 else suc rest

-- IS_POWER_OF_2, ALIGN_DOWN_MAX, ALIGN_UP_MIN
abbrev pub is_power_of_2 : ℕ → Bool
is_power_of_2 value = bit_and value (sub_size value 1) == 0

abbrev pub align_down_max : ℕ → ℕ
align_down_max value = log2 63 value

abbrev pub align_up_min : ℕ → ℕ
align_up_min value = if is_power_of_2 value then align_down_max value else align_down_max value + 1
