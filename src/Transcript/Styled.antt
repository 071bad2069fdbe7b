-- ===== src/Transcript/Styled.antt =====
-- transcript.rs, `mod markdown`: styling changes no text, and looks at no later line.
use nvim_agents_zzz.Prelude.{
  ℕ, ◌≡◌, refl, ap, Bool, Option, none, some, List, [], ◌∷◌, ◌++◌, map, length, take, arith,
}
use nvim_agents_zzz.Text.{Text}
use nvim_agents_zzz.Transcript.Lines.{Line, Style, styled}
use nvim_agents_zzz.Transcript.Markdown.{Fence, style_prose, style_line, style_from, style_lines}

abbrev text_of : Line → Text
text_of line = line.text

styled-text : (text : Text) (style : Style) → (styled text style).text ≡ text
unfolding styled
styled-text [] style = refl
styled-text (c ∷ text) style = refl

module _ (is_alphanumeric : ℕ → Bool) where
  style_prose-text : (text : Text) → (style_prose is_alphanumeric text).text ≡ text
  unfolding style_prose
  style_prose-text text = ground (arith, styled-text text)

  style_line-text :
      (fence : Option Fence) (text : Text) → (style_line is_alphanumeric fence text).0.text ≡ text
  unfolding style_line
  style_line-text (some fence) text = ground (arith, styled-text text)
  style_line-text none text = ground (arith, styled-text text, style_prose-text text)

  style_from-text :
      (texts : List Text) (fence : Option Fence)
      → map text_of (style_from is_alphanumeric fence texts) ≡ texts
  unfolding style_from
  style_from-text [] fence = refl
  style_from-text (text ∷ texts) fence =
      let first = style_line-text fence text in
      let rest = style_from-text texts (style_line is_alphanumeric fence text).1 in
      rw (first, rest) refl

  style_from-take :
      (xs ys : List Text) (fence : Option Fence)
      → take (length xs) (style_from is_alphanumeric fence (xs ++ ys))
        ≡ style_from is_alphanumeric fence xs
  unfolding style_from
  style_from-take [] ys fence = refl
  style_from-take (x ∷ xs) ys fence =
      ap (λ ls. (style_line is_alphanumeric fence x).0 ∷ ls)
        (style_from-take xs ys (style_line is_alphanumeric fence x).1)

  -- Styling the lines of a message gives one line for each, with its text as it was, and what is styled
  -- of the first lines does not depend on the lines after them.
  pub style_lines-take :
      (xs ys : List Text)
      → (map (λ line. line.text) (style_lines is_alphanumeric (xs ++ ys)) ≡ xs ++ ys)
        × (take (length xs) (style_lines is_alphanumeric (xs ++ ys))
            ≡ style_lines is_alphanumeric xs)
  unfolding style_lines
  style_lines-take xs ys = (style_from-text (xs ++ ys) none, style_from-take xs ys none)
