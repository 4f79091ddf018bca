-- ===== src/Text.antt =====
-- Python's `str` methods on native strings: `strip`, `rstrip("/")`, `upper`, `lower`.
pub mod Order
use Prim.Native.Char.{code}
use llm_evaluation_lab.Base.{ℕ, String, Bool, true, false, ◌&&◌, ◌||◌, leb, ◌==◌, if◌then◌else◌}

-- `str.isspace` on one code point, the set that `strip` removes.
unfoldable pub is_space : ℕ → Bool
is_space c =
    leb 9 c && leb c 13
    || leb 28 c && leb c 32
    || c == 133
    || c == 160
    || c == 5760
    || leb 8192 c && leb c 8202
    || c == 8232
    || c == 8233
    || c == 8239
    || c == 8287
    || c == 12288

abbrev pub is_blank_text : String → Bool
is_blank_text String.[] = true
is_blank_text (String.◌∷◌ c s) = false

-- `s.lstrip(…)` and `s.rstrip(…)` of the characters that a test selects
unfoldable pub drop_left : (ℕ → Bool) → String → String
drop_left test String.[] = String.[]
drop_left test (String.◌∷◌ c s) =
    let rest = drop_left test s in if test (code c) then rest else String.◌∷◌ c s

unfoldable pub drop_right : (ℕ → Bool) → String → String
drop_right test String.[] = String.[]
drop_right test (String.◌∷◌ c s) =
    let rest = drop_right test s in
    if is_blank_text rest && test (code c) then String.[] else String.◌∷◌ c rest

-- `s.strip()`
unfoldable pub strip : String → String
unfolding drop_left drop_right is_space
strip s = drop_right is_space (drop_left is_space s)

-- `s.rstrip("/")`
unfoldable pub rstrip_slash : String → String
unfolding drop_right
rstrip_slash s = drop_right (λ c. c == b'/') s

-- `not s.strip()`
unfoldable pub is_blank : String → Bool
unfolding strip
is_blank s = is_blank_text (strip s)
