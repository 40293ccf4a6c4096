-- ===== src/Venue/Parser/Phases.antt =====
-- What one pair's receiver may be handed, told from the outputs alone: an independent description
-- of the gating that the parser does with the flags of its routes.
use strategy_nodes.Common.{
  ℕ, Bool, true, false, Option, none, some, List, [], ◌∷◌, ◌++◌, Text, text_eq, Result, ok, err,
  if◌then◌else◌, ◌==◌,
}
use strategy_nodes.SortedMap.{find}
use strategy_nodes.SortedMap.Orders.{text_less}
use strategy_nodes.L2.Message.{MessageType, update, snapshot, Message, PairPrecision}
use strategy_nodes.Venue.Parser.{
  Parser, Route, Output, received, gapped, mismatched, timed, AttachError, attach, detach, start,
  emit,
}

-- No receiver, or the number of the one that waits for a snapshot, or that gets every message.
pub data Phase : Type 0 where
  closed : Phase
  waiting : ℕ → Phase
  flowing : ℕ → Phase

abbrev pub route_phase : Option Route → Phase
route_phase none = closed
route_phase (some r) = if r.awaiting_snapshot then waiting r.receiver else flowing r.receiver

abbrev pub phase_of : Text → Parser → Phase
phase_of symbol p = route_phase (find text_less symbol p.routes)

pub data Call : Type 0 where
  starts : Call
  attaches : Text → PairPrecision → ℕ → ℕ → Call
  detaches : Text → Call
  emits : Message → Call

-- Attaching a pair that has a receiver throws, and leaves the parser as it was.
abbrev pub after_attach : Parser → Result AttachError Parser → Parser × Bool
after_attach p (ok p') = (p', true)
after_attach p (err e) = (p, false)

-- What is seen of a call: the receiver it brought, whether it returned, and its outputs.
pub data Seen : Type 0 where
  started : Seen
  attached : Text → ℕ → Bool → Seen
  detached : Text → Seen
  output : Output → Seen

abbrev pub outputs : List Output → List Seen
outputs [] = []
outputs (o ∷ os) = output o ∷ outputs os

unfoldable pub step : Parser → Call → Parser × List Seen
step p starts = (start p, started ∷ [])
step p (attaches symbol precision depth receiver) =
    let (p', done) = after_attach p (attach p symbol precision depth receiver) in
    (p', attached symbol receiver done ∷ [])
step p (detaches symbol) = (detach p symbol, detached symbol ∷ [])
step p (emits m) = let (p', os) = emit p m in (p', outputs os)

unfoldable pub run : Parser → List Call → Parser × List Seen
run p [] = (p, [])
run p (c ∷ cs) = let (p', seen) = step p c in let (p'', rest) = run p' cs in (p'', seen ++ rest)

-- A message to a receiver in a phase: none where it must not be handed over, or not to it.
abbrev pub on_message : Phase → ℕ → MessageType → Option Phase
on_message closed n t = none
on_message (waiting k) n update = none
on_message (waiting k) n snapshot = if n == k then some (flowing k) else none
on_message (flowing k) n t = if n == k then some (flowing k) else none

abbrev pub on_mismatch : Phase → Option Phase
on_mismatch closed = none
on_mismatch (waiting k) = some (waiting k)
on_mismatch (flowing k) = some (waiting k)

abbrev pub on_start : Phase → Phase
on_start closed = closed
on_start (waiting k) = waiting k
on_start (flowing k) = waiting k

abbrev pub on_attach : Phase → ℕ → Bool → Option Phase
on_attach closed n true = some (waiting n)
on_attach closed n false = none
on_attach (waiting k) n true = none
on_attach (waiting k) n false = some (waiting k)
on_attach (flowing k) n true = none
on_attach (flowing k) n false = some (flowing k)

-- The phase of `symbol` after what is seen; none where the sight breaks the rules.
abbrev pub next : Text → Phase → Seen → Option Phase
next symbol ph started = some (on_start ph)
next symbol ph (attached s n done) = if text_eq s symbol then on_attach ph n done else some ph
next symbol ph (detached s) = if text_eq s symbol then some closed else some ph
next symbol ph (output (received n m)) =
    if text_eq m.symbol symbol then on_message ph n m.type else some ph
next symbol ph (output (mismatched s)) = if text_eq s symbol then on_mismatch ph else some ph
next symbol ph (output (gapped n g)) = some ph
next symbol ph (output (timed t)) = some ph

abbrev pub follow : Text → Phase → List Seen → Option Phase
follow symbol ph [] = some ph
follow symbol ph (x ∷ xs) = elim (next symbol ph x) [ none ↦ none | some q ↦ follow symbol q xs ]
