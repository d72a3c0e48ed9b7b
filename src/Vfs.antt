-- ===== src/Vfs.antt =====
-- src/os_vfs.c: the paths of the virtual file system.
--
-- A string is the list of its bytes before the terminating 0, and reading at its length gives the 0.
-- `none` stands for an access before the start of the buffer.
pub mod Dirs
pub mod Steps
pub mod Rounds
pub mod Normalize
pub mod Meaning
pub mod Mounts
mod Tests
use dreamos_cversion.Base.{
  ℕ, zero, suc, ◌+◌, ◌-◌, ◌*◌, ◌/◌, ◌%◌, ◌^◌, ◌<◌, ◌≤◌, ◌≡◌, ◌≢◌, ◌↔◌, refl, sym, ap, subst, ◌∙◌,
  ◌⊎◌, inl, inr, min, max, bit_and, bit_or, bit_xor, Bool, true, false, ◌&&◌, ◌||◌, not, Option,
  none, some, List, [], ◌∷◌, ◌++◌, map, arith, ltb, leb, ◌==◌, if◌then◌else◌, Bool-cases,
  Option-cases, is_some, dec_lt, ℕ_discrete, length, get_or, get_elem?, set, take, drop, replicate,
  length-append, length-set, get_or-set_self, get_or-set_ne, length-replicate, get_or-replicate,
  set-set_self, ==_iff,
}

abbrev pub slash : ℕ
slash = 47

abbrev pub dot : ℕ
dot = 46

abbrev pub backslash : ℕ
backslash = 92

-- OS_VFS_PATH_MAX
abbrev pub path_max : ℕ
path_max = 255

-- path[i], the terminating 0 included
abbrev pub byte : List ℕ → ℕ → ℕ
byte path i = get_or path i 0

-- What os_vfs_normalize_path returns: OS_ERR_OK with the string in the buffer, or -OS_ERR_EINVAL.
pub data Normalized : Type 0 where
  normal : List ℕ → Normalized
  einval : Normalized

-- The buffer is held as the bytes before `j`, the last one first. This is the loop that goes back to
-- a slash in the parent case, and the one that takes slashes off the end.
unfoldable pub back_to_slash : List ℕ → Option (List ℕ)
back_to_slash [] = none
back_to_slash (c ∷ buf) =
    let rest = back_to_slash buf in if c == slash then some (c ∷ buf) else rest

unfoldable pub strip_slashes : List ℕ → Option (List ℕ)
strip_slashes [] = none
strip_slashes (c ∷ buf) =
    let rest = strip_slashes buf in if c == slash then rest else some (c ∷ buf)

-- `j > 1` and `j--` in the parent case, and the end of the function.
unfoldable pub parent : List ℕ → Option (List ℕ)
unfolding back_to_slash
parent [] = some []
parent (c ∷ []) = some (c ∷ [])
parent (c ∷ d ∷ buf) = back_to_slash (d ∷ buf)

unfoldable pub finish : List ℕ → Option (List ℕ)
unfolding strip_slashes
finish [] = some []
finish (c ∷ []) = some (c ∷ [])
finish (c ∷ d ∷ buf) = strip_slashes (c ∷ d ∷ buf)

pub onto : List ℕ → List ℕ → List ℕ
onto [] ys = ys
onto (x ∷ xs) ys = onto xs (x ∷ ys)

-- The buffer as a string.
unfoldable pub string_of : List ℕ → List ℕ
unfolding onto
string_of buf = onto buf []

-- The tests of the loop at `i`: a slash after a slash, a dot that starts a component, and what
-- follows it.
abbrev pub at_double_slash : List ℕ → ℕ → Bool
at_double_slash path i = ltb 0 i && (byte path (i - 1) == slash) && (byte path i == slash)

abbrev pub at_dot : List ℕ → ℕ → Bool
at_dot path i = (byte path i == dot) && (byte path (i - 1) == slash)

abbrev pub ends_at : List ℕ → ℕ → Bool
ends_at path i = (byte path i == 0) || (byte path i == slash)

-- The loop of os_vfs_normalize_path.
unfoldable pub normalize_loop : List ℕ → (fuel i : ℕ) → (buf : List ℕ) → Option Normalized
unfolding parent finish string_of
normalize_loop path zero i buf = none
normalize_loop path (suc fuel) i buf =
    let current = normalize_loop path fuel (i + 2) buf in
    let up : Option Normalized = elim (parent buf) [
      | none ↦ none
      | some buf' ↦ normalize_loop path fuel (i + 3) buf'
    ] in
    let copied = normalize_loop path fuel (i + 1) (byte path i ∷ buf) in
    let done : Option Normalized = elim (finish buf) [
      | none ↦ none
      | some buf' ↦ some (normal (string_of buf'))
    ] in
    if not (ltb i (length path))
    then done
    else if at_double_slash path i
    then some einval
    else if at_dot path i && ends_at path (i + 1)
    then current
    else if at_dot path i && (byte path (i + 1) == dot) && ends_at path (i + 2)
    then up
    else if byte path i == backslash
    then some einval
    else copied

-- os_vfs_normalize_path
unfoldable pub normalize_path : List ℕ → Option Normalized
unfolding normalize_loop
normalize_path path =
    let result = normalize_loop path (suc (length path)) 0 [] in
    if length path == 0
    then some einval
    else if ltb path_max (length path)
    then some einval
    else if not (byte path 0 == slash)
    then some einval
    else result
