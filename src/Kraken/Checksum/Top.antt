-- ===== src/Kraken/Checksum/Top.antt =====
-- data_feed/kraken/checksum.cc: the checksum is that of the top levels alone, so that a book kept
-- at any depth of Kraken's has the checksum of the whole book.
use strategy_nodes.Common.{
  ℕ, zero, suc, ◌≤◌, ◌≡◌, refl, ap, ◌∙◌, true, inl, inr, [], ◌∷◌, take, length, ltb, ◌==◌,
  Bool-cases, arith, Text, any_of,
}
use strategy_nodes.L2.Book.{Book, Side, truncate}
use strategy_nodes.Crypto.Crc32.{crc32}
use strategy_nodes.Kraken.MessageSize.{l2_depths}
use strategy_nodes.Kraken.Checksum.{checksum_depth, append_side, book_checksum}

take-take : (n k : ℕ) (side : Side) → n ≤ k → take n (take k side) ≡ take n side
take-take zero k side h = refl
take-take (suc n) zero side h = absurd (omega arith)
take-take (suc n) (suc k) [] h = refl
take-take (suc n) (suc k) (level ∷ levels) h =
    ap (λ ls. level ∷ ls) (take-take n k levels (omega arith))

top-truncate :
    (depth : ℕ) (side : Side)
    → checksum_depth ≤ depth
    → take checksum_depth (truncate depth side) ≡ take checksum_depth side
unfolding truncate
top-truncate depth side h = elim (Bool-cases (depth == 0)) [
  | inl e ↦ absurd (ground arith)
  | inr e ↦ elim (Bool-cases (ltb depth (length side))) [
    | inl f ↦ rw (truncate, e, f) (take-take checksum_depth depth side h)
    | inr f ↦ rw (truncate, e, f) refl
  ]
]

append_side-truncate :
    (depth : ℕ) (side : Side) (out : Text)
    → checksum_depth ≤ depth
    → append_side (truncate depth side) out ≡ append_side side out
unfolding append_side
append_side-truncate depth side out h = rw (top-truncate depth side h) refl

deep_enough : (depth : ℕ) → any_of (λ d. d == depth) l2_depths ≡ true → checksum_depth ≤ depth
deep_enough depth h = ground arith

-- A book cut at any depth that Kraken streams has the checksum of the whole book.
pub book_checksum-truncate :
    (b : Book) (depth : ℕ)
    → any_of (λ d. d == depth) l2_depths ≡ true
    → book_checksum (record b { bids = truncate depth b.bids; asks = truncate depth b.asks })
      ≡ book_checksum b
unfolding book_checksum
book_checksum-truncate b depth h =
    let deep = deep_enough depth h in
    ap (λ out. crc32 (append_side (truncate depth b.bids) out))
      (append_side-truncate depth b.asks [] deep)
    ∙ ap crc32 (append_side-truncate depth b.bids (append_side b.asks []) deep)
