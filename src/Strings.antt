-- ===== src/Strings.antt =====
-- The functions of Go's package strings that the program calls, at the one-byte separators that it
-- gives them.
pub mod Parts
use correlation.Base.{ℕ, Text, List, [], ◌∷◌, ◌++◌, Bool, ◌==◌, if◌then◌else◌, leb, ◌||◌, ◌&&◌}

-- puts a byte in front of the first part
abbrev pub push_first : ℕ → List Text → List Text
push_first c [] = (c ∷ []) ∷ []
push_first c (p ∷ ps) = (c ∷ p) ∷ ps

-- strings.Split(s, sep), sep one byte
unfoldable pub split : ℕ → Text → List Text
split sep [] = [] ∷ []
split sep (c ∷ s) = let rest = split sep s in if c == sep then [] ∷ rest else push_first c rest

-- strings.Join(parts, sep), sep one byte
unfoldable pub join : ℕ → List Text → Text
join sep [] = []
join sep (p ∷ []) = p
join sep (p ∷ q ∷ ps) = p ++ sep ∷ join sep (q ∷ ps)

-- strings.Replace(s, old, new, -1), both one byte
unfoldable pub replace_byte : ℕ → ℕ → Text → Text
replace_byte old new [] = []
replace_byte old new (c ∷ s) = (if c == old then new else c) ∷ replace_byte old new s

-- the ASCII white space of strings.TrimSpace
abbrev pub is_space : ℕ → Bool
is_space c = c == 32 || (leb 9 c && leb c 13)

abbrev trim_left : Text → Text
trim_left [] = []
trim_left (c ∷ s) = let rest = trim_left s in if is_space c then rest else c ∷ s

abbrev push_kept : ℕ → Text → Text
push_kept c [] = if is_space c then [] else c ∷ []
push_kept c (d ∷ s) = c ∷ d ∷ s

abbrev trim_right : Text → Text
trim_right [] = []
trim_right (c ∷ s) = push_kept c (trim_right s)

-- strings.TrimSpace(s)
unfoldable pub trim_space : Text → Text
trim_space s = trim_right (trim_left s)
