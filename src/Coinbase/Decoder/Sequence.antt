-- ===== src/Coinbase/Decoder/Sequence.antt =====
-- data_feed/coinbase/l2_decoder.cc: the frames that a connection decodes are numbered without a
-- gap, and a gap throws.
use strategy_nodes.Common.{
  ℕ, suc, ◌-◌, ◌<◌, ◌≡◌, refl, ap, sym, ◌∙◌, inl, inr, ℤ, true, false, Option, none, some, List, [],
  ◌∷◌, Text, ok, if◌then◌else◌, subst, arith,
}
use strategy_nodes.Core.Json.{Json, skipped, is_object, Holds}
use strategy_nodes.Coinbase.Decoder.{
  Decoder, numbered, document_head, decode_advanced, decode_numbered, decode_head, decode_document,
  decode,
}
use strategy_nodes.Venue.Decoder.{Output, RawFrame, Run, returned, threw, for_each, Returns}
use strategy_nodes.Coinbase.Decoder.Moves.{
  number_of, late, IsNext, HasSmall, document_head-HasSmall, advance_skips, Moved, decode-Moved,
}

-- The number of a frame that is not ignored, and those of the frames after it.
abbrev pub keep_number : Option ℕ → Option ℕ → List ℕ → (ℕ → List ℕ) → List ℕ
keep_number last none rest later = rest
keep_number last (some n) rest later = if late last (some n) then rest else n ∷ later n

-- The numbers of the frames that are not ignored, after `last`.
abbrev pub kept : Option ℕ → List RawFrame → List ℕ
kept last [] = []
kept last (frame ∷ frames) =
    keep_number last (number_of frame) (kept last frames) (λ n. kept (some n) frames)

-- The frames that are not ignored, after `last`.
abbrev pub in_order : Option ℕ → List RawFrame → List RawFrame
in_order last [] = []
in_order last (frame ∷ frames) =
    let rest = in_order last frames in
    let later = frame ∷ in_order (number_of frame) frames in
    if late last (number_of frame) then rest else later

keep_number-late :
    (last number : Option ℕ) (rest : List ℕ) (later : ℕ → List ℕ)
    → late last number ≡ true
    → keep_number last number rest later ≡ rest
keep_number-late last none rest later h = refl
keep_number-late last (some n) rest later h = rw (h) refl

next_not_late : (last : Option ℕ) (n : ℕ) → IsNext last n → late last (some n) ≡ false
next_not_late none n h = refl
next_not_late (some last) n h = ground arith

keep_number_next :
    (last : Option ℕ) (n : ℕ) (rest : List ℕ) (later : ℕ → List ℕ)
    → IsNext last n
    → keep_number last (some n) rest later ≡ n ∷ later n
keep_number_next last n rest later h = rw (next_not_late last n h) refl

Returns-map :
    {S : Type 0} (P Q : S → Type 0) (r : Run S) → ((s : S) → P s → Q s) → Returns P r → Returns Q r
Returns-map P Q (returned s) f h = f s h
Returns-map P Q (threw e s) f h = tt

-- Each number is one more than the one before it; the first of a connection may be any.
abbrev pub Follows : Option ℕ → List ℕ → Type 0
Follows last [] = Unit
Follows last (n ∷ ns) = IsNext last n × Follows (some n) ns

module _ {O : Type 0} (out : Output O) (unspecified_days : ℤ → ℤ → ℤ → ℤ) where
  abbrev pub decode_all : Decoder × O → List RawFrame → Run (Decoder × O)
  decode_all = for_each (λ s frame. decode out unspecified_days (s.0) (s.1) frame)

  -- What is known of the state `u` after the frames, if none throws: the numbers follow, and it is
  -- the state after the frames that are not ignored.
  abbrev Follow : Decoder × O → List RawFrame → Decoder × O → Type 0
  Follow s frames u =
      Follows ((s.0).last_sequence) (kept ((s.0).last_sequence) frames)
      × (decode_all s (in_order ((s.0).last_sequence) frames) ≡ returned u)

  decode_all_next :
      (d : Decoder) (o : O) (frame : RawFrame) (rest : List RawFrame) (t u : Decoder × O)
      → decode out unspecified_days d o frame ≡ returned t
      → decode_all t rest ≡ returned u
      → decode_all (d, o) (frame ∷ rest) ≡ returned u
  unfolding for_each
  decode_all_next d o frame rest t u e runs =
      ap (λ r. elim r [ returned v ↦ decode_all v rest | threw x v ↦ threw x v ]) e ∙ runs

  Moved-Follow :
      (d : Decoder) (o : O) (frame : RawFrame) (frames : List RawFrame) (t u : Decoder × O)
      → decode out unspecified_days d o frame ≡ returned t
      → Moved out unspecified_days d o (number_of frame) t
      → Follow t frames u
      → Follow (d, o) (frame ∷ frames) u
  unfolding for_each
  Moved-Follow d o frame frames t u e (inl (h, same)) f =
      let (follows, runs) = subst (λ (s : Decoder × O). Follow s frames u) same f in
      (
        subst (Follows d.last_sequence)
            (sym (
              keep_number-late d.last_sequence (number_of frame) (kept d.last_sequence frames)
                (λ n. kept (some n) frames) h))
            follows,
        rw (h) runs,
      )
  Moved-Follow d o frame frames t u e (inr (n, (number, next, last))) (follows, runs) =
      let later = λ (k : ℕ). kept (some k) frames in
      let rest = kept d.last_sequence frames in
      let not_late = ap (late d.last_sequence) number ∙ next_not_late d.last_sequence n next in
      (
        subst (Follows d.last_sequence)
            (sym (
              ap (λ k. keep_number d.last_sequence k rest later) number
              ∙ keep_number_next d.last_sequence n rest later next))
            (next, subst (λ k. Follows k (kept k frames)) last follows),
        rw (not_late) (
            decode_all_next d o frame (in_order (number_of frame) frames) t u e (
              subst (λ k. decode_all t (in_order k frames) ≡ returned u) (last ∙ sym number) runs)),
      )

  decode_all-Follow :
      (d : Decoder) (o : O) (frames : List RawFrame)
      → Returns (Follow (d, o) frames) (decode_all (d, o) frames)
  unfolding for_each
  decode_all-Follow d o [] = (tt, refl)
  decode_all-Follow d o (frame ∷ frames) =
      at (decode out unspecified_days d o frame) refl (decode-Moved out unspecified_days d o frame)
        (λ t. decode_all-Follow (t.0) (t.1) frames)
    where
      at :
          (r : Run (Decoder × O))
          → decode out unspecified_days d o frame ≡ r
          → Returns (Moved out unspecified_days d o (number_of frame)) r
          → ((t : Decoder × O) → Returns (Follow t frames) (decode_all t frames))
          → Returns
              (Follow (d, o) (frame ∷ frames))
              (elim r [ returned t ↦ decode_all t frames | threw e t ↦ threw e t ])
      at (threw x t) e moved later = tt
      at (returned t) e moved later =
          Returns-map (Follow t frames) (Follow (d, o) (frame ∷ frames)) (decode_all t frames)
            (λ u. Moved-Follow d o frame frames t u e moved) (later t)

  -- When no frame of a sequence throws, the frames of it that are neither at or below the number
  -- before them nor without a number are numbered one by one, none missing between two of them; and
  -- the others are ignored: without them, the decoder and the output end in the same state.
  pub frames_follow :
      (d : Decoder) (o : O) (frames : List RawFrame) (s : Decoder × O)
      → decode_all (d, o) frames ≡ returned s
      → Follows d.last_sequence (kept d.last_sequence frames)
        × (decode_all (d, o) (in_order d.last_sequence frames) ≡ returned s)
  frames_follow d o frames s r =
      subst (Returns (Follow (d, o) frames)) r (decode_all-Follow d o frames)

  -- A frame whose number skips one throws, and neither emits nor becomes the last.
  pub gap_throws :
      (d : Decoder) (o : O) (document : Json) (capture : ℤ) (channel : Text) (last n : ℕ)
      → is_object document ≡ true
      → document_head document ≡ ok (numbered channel n)
      → d.last_sequence ≡ some last
      → suc last < n
      → decode out unspecified_days d o (record { json = some document; capture_time_ns = capture })
        ≡ threw (skipped (suc last) (n - 1)) (d, o)
  unfolding decode decode_document decode_head decode_numbered decode_advanced
  gap_throws d o document capture channel last n object head at_last gap =
      rw
        (
          object,
          head,
          at_last,
          advance_skips last n (subst (Holds HasSmall) head (document_head-HasSmall document)) gap,
        )
        refl
