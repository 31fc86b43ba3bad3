-- ===== src/Common/Trimming.antt =====
-- `s.trim()` on the white space of JavaScript.
use Prim.Native.Nat.{ℕ}
use mathlib.Core.Bool.{Bool}
use mathlib.Core.List.{[], ◌∷◌, reverse}
use masterplan.Common.Tests.{if◌then◌else◌}
use masterplan.Common.Equality.{Text, nat_eq}
use masterplan.Common.Sets.{includes}

white_space : Text
white_space =
    9 ∷ 10 ∷ 11 ∷ 12 ∷ 13 ∷ 32 ∷ 160 ∷ 5760 ∷ 8192 ∷ 8193 ∷ 8194 ∷ 8195 ∷ 8196 ∷ 8197 ∷ 8198 ∷ 8199
    ∷ 8200 ∷ 8201 ∷ 8202 ∷ 8232 ∷ 8233 ∷ 8239 ∷ 8287 ∷ 12288 ∷ 65279 ∷ []

-- `/\s/` at one code unit.
unfoldable pub is_space : ℕ → Bool
unfolding white_space includes
is_space = includes white_space

trim_start : Text → Text
unfolding white_space includes
trim_start [] = []
trim_start (c ∷ cs) = if includes white_space c then trim_start cs else c ∷ cs

unfoldable pub trim : Text → Text
unfolding trim_start
trim s = reverse (trim_start (reverse (trim_start s)))

-- `s.replace(/\s*$/, '')`
unfoldable pub trim_end : Text → Text
unfolding trim_start
trim_end s = reverse (trim_start (reverse s))
