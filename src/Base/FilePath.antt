-- ===== src/Base/FilePath.antt =====
-- What the program uses of Go's `path/filepath` on a Unix system: `Clean`, `Join` and `Base`.
use Prim.Native.Char.{Char, code}
use Prim.Native.String.{String, ◌++◌ as ◌<>◌}
use mathlib.Core.Path.{◌≡◌, refl}
use mathlib.Core.Bool.{Bool, false, ◌||◌}
use mathlib.Core.List.{List, [], ◌∷◌, reverse}
use yllmd.Base.Tests.{nat_beq, ◌==◌, string_eq, if◌then◌else◌}

abbrev pub is_slash : Char → Bool
is_slash c = nat_beq (code c) b'/'

unfoldable pub onto_first : Char → List String → List String
onto_first c [] = (String.◌∷◌ c "") ∷ []
onto_first c (s ∷ ss) = String.◌∷◌ c s ∷ ss

-- The texts between slashes.
unfoldable pub segments : String → List String
unfolding onto_first
segments String.[] = "" ∷ []
segments (String.◌∷◌ c s) =
    let rest = segments s in if is_slash c then "" ∷ rest else onto_first c rest

unfoldable pub is_rooted : String → Bool
is_rooted String.[] = false
is_rooted (String.◌∷◌ c s) = is_slash c

-- `..` drops the last segment kept, stays at the root, or is kept itself. The kept ones are reversed.
unfoldable pub up : Bool → List String → List String
up rooted [] = if rooted then [] else ".." ∷ []
up rooted (s ∷ ss) = if s == ".." then ".." ∷ s ∷ ss else ss

unfoldable pub keep_segment : Bool → String → List String → List String
unfolding up
keep_segment rooted s kept =
    if (s == "") || (s == ".") then kept else if s == ".." then up rooted kept else s ∷ kept

unfoldable pub keep_segments : Bool → List String → List String → List String
unfolding keep_segment
keep_segments rooted kept [] = kept
keep_segments rooted kept (s ∷ ss) = keep_segments rooted (keep_segment rooted s kept) ss

abbrev pub joined : List String → String
joined [] = ""
joined (s ∷ []) = s
joined (s ∷ t ∷ ss) = s <> "/" <> joined (t ∷ ss)

abbrev pub or_dot : String → String
or_dot s = if s == "" then "." else s

-- `filepath.Clean`
unfoldable pub clean : String → String
unfolding segments is_rooted keep_segments
clean path =
    let rooted = is_rooted path in
    let kept = joined (reverse (keep_segments rooted [] (segments path))) in
    if rooted then "/" <> kept else or_dot kept

unfoldable pub nonempty : List String → List String
nonempty [] = []
nonempty (s ∷ ss) = let rest = nonempty ss in if s == "" then rest else s ∷ rest

-- `filepath.Join`
unfoldable pub join : List String → String
unfolding nonempty clean
join parts = elim (nonempty parts) [ [] ↦ "" | s ∷ ss ↦ clean (joined (s ∷ ss)) ]

unfoldable pub last_nonempty : String → List String → String
last_nonempty found [] = found
last_nonempty found (s ∷ ss) = last_nonempty (if s == "" then found else s) ss

-- `filepath.Base`: the last segment with text in it, `.` for an empty path, `/` for slashes alone.
unfoldable pub base : String → String
unfolding last_nonempty segments
base path =
    if path == ""
    then "."
    else let last = last_nonempty "" (segments path) in if last == "" then "/" else last

clean_tests :
    (clean "a/./b/../c//" ≡ "a/c")
    × (clean "" ≡ ".")
    × (clean "/.." ≡ "/")
    × (clean "../x/../../y" ≡ "../../y")
unfolding clean
clean_tests = (refl, refl, refl, refl)

join_tests : (join ("/var" ∷ "m" ∷ "current" ∷ []) ≡ "/var/m/current") × (join ("" ∷ "" ∷ []) ≡ "")
unfolding join
join_tests = (refl, refl)

base_tests : (base "a/b/" ≡ "b") × (base "/" ≡ "/") × (base "" ≡ ".") × (base ".." ≡ "..")
unfolding base
base_tests = (refl, refl, refl, refl)
