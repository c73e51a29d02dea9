-- ===== src/Prelude/Text.antt =====
-- `str.strip`, `str.lower` and `str.startswith` as the program calls them.
use Prim.Native.Nat.{ℕ}
use Prim.Native.Char.{Char, code}
use Prim.Native.String.{String, [], ◌∷◌, ◌++◌}
use mathlib.Core.Path.{◌≡◌, refl}
use mathlib.Core.Bool.{Bool, true, false, ◌&&◌, ◌||◌}
use mathlib.Core.List.{List}
use p4p.Prelude.Tests.{leb, nat_eq, if◌then◌else◌}

-- The code points that Python's `str.isspace` accepts.
pub is_space : ℕ → Bool
is_space c =
    (leb 9 c && leb c 13)
    || (leb 28 c && leb c 32)
    || nat_eq c 133
    || nat_eq c 160
    || nat_eq c 5760
    || (leb 8192 c && leb c 8202)
    || nat_eq c 8232
    || nat_eq c 8233
    || nat_eq c 8239
    || nat_eq c 8287
    || nat_eq c 12288

is_empty : String → Bool
is_empty [] = true
is_empty (c ∷ s) = false

lstrip : String → String
lstrip [] = []
lstrip (c ∷ s) = let rest = lstrip s in if is_space (code c) then rest else c ∷ s

rstrip : String → String
rstrip [] = []
rstrip (c ∷ s) = let rest = rstrip s in if is_empty rest && is_space (code c) then [] else c ∷ rest

unfoldable pub strip : String → String
unfolding is_space is_empty lstrip rstrip
strip s = rstrip (lstrip s)

-- The character of `to` at the place where `from` has `c`, and `c` where it has none.
translate : String → String → Char → Char
translate [] to c = c
translate (x ∷ from) [] c = c
translate (x ∷ from) (y ∷ to) c =
    let rest = translate from to c in if nat_eq (code c) (code x) then y else rest

map_chars : (Char → Char) → String → String
map_chars f [] = []
map_chars f (c ∷ s) = f c ∷ map_chars f s

-- Exact up to code point 255; letters beyond keep their case here.
unfoldable pub lower : String → String
unfolding translate map_chars
lower = map_chars (
    translate "ABCDEFGHIJKLMNOPQRSTUVWXYZÀÁÂÃÄÅÆÇÈÉÊËÌÍÎÏÐÑÒÓÔÕÖØÙÚÛÜÝÞ"
      "abcdefghijklmnopqrstuvwxyzàáâãäåæçèéêëìíîïðñòóôõöøùúûüýþ")

lower-strip_test : lower (strip "  Paper_OUT \t") ≡ "paper_out"
unfolding lower strip
lower-strip_test = refl

-- `str.title` of a single word of ASCII letters.
unfoldable pub title : String → String
unfolding translate map_chars
title [] = []
title (c ∷ s) =
    translate "abcdefghijklmnopqrstuvwxyz" "ABCDEFGHIJKLMNOPQRSTUVWXYZ" c
    ∷ map_chars (translate "ABCDEFGHIJKLMNOPQRSTUVWXYZ" "abcdefghijklmnopqrstuvwxyz") s

-- The pieces of an f-string.
unfoldable pub concat : List String → String
concat List.[] = ""
concat (List.◌∷◌ s ss) = s ++ concat ss

unfoldable pub starts_with : String → String → Bool
starts_with [] s = true
starts_with (x ∷ prefix) [] = false
starts_with (x ∷ prefix) (c ∷ s) = nat_eq (code x) (code c) && starts_with prefix s

-- SQLite's `lower`, which knows the ASCII letters alone, and its `trim`, which takes off U+0020
-- alone.
unfoldable pub lower_ascii : String → String
unfolding translate map_chars
lower_ascii = map_chars (translate "ABCDEFGHIJKLMNOPQRSTUVWXYZ" "abcdefghijklmnopqrstuvwxyz")

trim_left : String → String
trim_left [] = []
trim_left (c ∷ s) = let rest = trim_left s in if nat_eq (code c) 32 then rest else c ∷ s

trim_right : String → String
trim_right [] = []
trim_right (c ∷ s) =
    let rest = trim_right s in if is_empty rest && nat_eq (code c) 32 then [] else c ∷ rest

unfoldable pub trim : String → String
unfolding is_empty trim_left trim_right
trim s = trim_right (trim_left s)
