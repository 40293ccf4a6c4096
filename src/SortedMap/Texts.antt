-- ===== src/SortedMap/Texts.antt =====
-- Maps with texts for keys: their order tells apart just what `==` does.
use strategy_nodes.Common.{
  ◌≡◌, ap, sym, ◌∙◌, inl, inr, Bool-cases, Text, text_eq, text_eq_self, text_eq→eq,
}
use strategy_nodes.SortedMap.{same}
use strategy_nodes.SortedMap.Orders.{text_less}
use strategy_nodes.SortedMap.Laws.{same→eq, same_self}

pub same-text_eq : (s t : Text) → same text_less s t ≡ text_eq s t
same-text_eq s t = elim (Bool-cases (text_eq s t)) [
  | inl y ↦ rw y (ap (same text_less s) (sym (text_eq→eq s t y)) ∙ same_self text_less s)
  | inr n ↦ elim (Bool-cases (same text_less s t)) [
    | inl y ↦ cc (text_eq_self s, ap (text_eq s) (same→eq text_less s t y))
    | inr m ↦ rw n m
  ]
]
