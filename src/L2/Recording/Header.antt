-- ===== src/L2/Recording/Header.antt =====
-- The text fields of a recording's header have a fixed width.
use strategy_nodes.Common.{
  ℕ, ◌-◌, ◌≡◌, ◌∙◌, ◌++◌, Text, length, take, min, replicate, length-append, length-take,
  length-replicate, arith, All, All-take, ◌==◌, [], ◌∷◌, zero, suc, false, if◌then◌else◌, refl,
}
use strategy_nodes.Core.Decimal.Laws.{take-min}
use strategy_nodes.L2.Recording.{text_size, to_fixed_text}

-- A reader of a text field: the bytes before its first zero, or all of them.
unfoldable pub text_of : Text → Text
text_of [] = []
text_of (c ∷ cs) = let rest = text_of cs in if c == 0 then [] else c ∷ rest

text_of-zeros :
    (cs : Text) (n : ℕ) → All (λ c. (c == 0) ≡ false) cs → text_of (cs ++ replicate n 0) ≡ cs
unfolding text_of
text_of-zeros [] zero h = refl
text_of-zeros [] (suc n) h = refl
text_of-zeros (c ∷ cs) n (hc, h) = rw (hc, text_of-zeros cs n h) refl

-- A text field is 16 bytes whatever the text, and a reader that stops at the first zero byte gets
-- the text back, cut at 16 bytes. The text has no zero byte.
pub to_fixed_text_lem :
    (value : Text)
    → All (λ c. (c == 0) ≡ false) value
    → (length (to_fixed_text value) ≡ text_size)
      × (text_of (to_fixed_text value) ≡ take text_size value)
unfolding to_fixed_text
to_fixed_text_lem value h =
    let n = min (length value) text_size in
    let kept = length-take n value in
    (
      omega (
        arith,
        length-append (take n value) (replicate (text_size - n) 0),
        kept,
        length-replicate {A = ℕ} (text_size - n) 0,
      ),
      text_of-zeros (take n value) (text_size - n) (All-take (λ c. (c == 0) ≡ false) n value h)
          ∙ take-min text_size value,
    )
