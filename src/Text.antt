-- ===== src/Text.antt =====
-- Texts as lists of code points, for the code that walks their characters: what the source uses of
-- `str` and `char`. Offsets inside a text are counted in characters; `len` is the length in bytes.
use Prim.Native.Char.{code}
use nvim_agents_zzz.Prelude.{
  ℕ, suc, String, Bool, true, false, ◌&&◌, ◌||◌, Option, none, some, List, [], ◌∷◌, ltb, leb, ◌==◌,
  if◌then◌else◌, any, sum_by,
}

abbrev pub Text : Type 0
Text = List ℕ

abbrev pub codes : String → Text
codes String.[] = []
codes (String.◌∷◌ c s) = code c ∷ codes s

-- The bytes of one character in UTF-8.
unfoldable pub len_utf8 : ℕ → ℕ
len_utf8 c = if ltb c 0x80 then 1 else if ltb c 0x800 then 2 else if ltb c 0x10000 then 3 else 4

-- `str::len`
unfoldable pub len : Text → ℕ
len = sum_by len_utf8

-- How many characters at the front are `c`.
unfoldable pub run_of : ℕ → Text → ℕ
run_of c [] = 0
run_of c (d ∷ ds) = let rest = run_of c ds in if d == c then suc rest else 0

unfoldable pub starts_with : Text → Text → Bool
starts_with [] text = true
starts_with (p ∷ ps) [] = false
starts_with (p ∷ ps) (c ∷ cs) = p == c && starts_with ps cs

unfoldable pub contains : ℕ → Text → Bool
contains c = any (λ d. d == c)

-- `str::find` of a non-empty pattern.
unfoldable pub find : Text → Text → Option ℕ
find pattern [] = none
find pattern (c ∷ cs) =
    let later = elim (find pattern cs) as (λ o. Option ℕ) [ none ↦ none | some n ↦ some (suc n) ] in
    if starts_with pattern (c ∷ cs) then some 0 else later

unfoldable pub ends_with : ℕ → Text → Bool
ends_with c [] = false
ends_with c (d ∷ []) = d == c
ends_with c (d ∷ e ∷ ds) = ends_with c (e ∷ ds)

-- The Unicode property White_Space, as `char::is_whitespace` has it.
unfoldable pub is_whitespace : ℕ → Bool
is_whitespace c =
    (leb 0x9 c && leb c 0xd)
    || c == 0x20
    || c == 0x85
    || c == 0xa0
    || c == 0x1680
    || (leb 0x2000 c && leb c 0x200a)
    || c == 0x2028
    || c == 0x2029
    || c == 0x202f
    || c == 0x205f
    || c == 0x3000

-- `text.trim().is_empty()`
unfoldable pub is_blank : Text → Bool
unfolding is_whitespace
is_blank [] = true
is_blank (c ∷ cs) = is_whitespace c && is_blank cs

-- `char::is_control`
unfoldable pub is_control : ℕ → Bool
is_control c = ltb c 0x20 || (leb 0x7f c && leb c 0x9f)
