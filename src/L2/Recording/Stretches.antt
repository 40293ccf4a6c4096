-- ===== src/L2/Recording/Stretches.antt =====
-- Each unbroken stretch of a stream is recorded in a file of its own.
use strategy_nodes.Common.{
  ◌≡◌, refl, ap, sym, ◌∙◌, true, Option, none, some, List, [], ◌∷◌, ◌++◌, append-nil, append_assoc,
  ℤ, Text, Result, ok, err, is_empty, if◌then◌else◌,
}
use strategy_nodes.L2.Message.{Message, BookSpec, PairPrecision}
use strategy_nodes.L2.Recording.{
  FileHeader, File, FileWriter, WriteError, Entry, open_file, make_file_writer, make_file_header,
  close_file, write, end_stretch, record_message, consume,
}

-- The messages between two gaps, where there are any; `stretch` are those since the last gap.
abbrev pub flush : List Message → List (List Message)
flush stretch = if is_empty stretch then [] else stretch ∷ []

abbrev pub stretches : List Message → List (Entry × ℤ) → List (List Message)
stretches stretch [] = flush stretch
stretches stretch ((none, now) ∷ es) = flush stretch ++ stretches [] es
stretches stretch ((some m, now) ∷ es) = stretches (stretch ++ m ∷ []) es

-- The messages of the files that have any.
abbrev pub recorded : List File → List (List Message)
recorded [] = []
recorded (f ∷ files) = flush f.messages ++ recorded files

recorded-append : (xs ys : List File) → recorded (xs ++ ys) ≡ recorded xs ++ recorded ys
recorded-append [] ys = refl
recorded-append (f ∷ xs) ys =
    ap (λ l. flush f.messages ++ l) (recorded-append xs ys)
    ∙ sym (append_assoc (flush f.messages) (recorded xs) (recorded ys))

-- The entries one after the other, each at its time, on a disk that takes every file and write.
unfoldable pub run : FileWriter → List (Entry × ℤ) → Result WriteError FileWriter
run w [] = ok w
run w ((e, now) ∷ es) = elim (consume w e now true true) [ err x ↦ err x | ok w' ↦ run w' es ]

abbrev writer : FileHeader → List File → Option File → FileWriter
writer header finished output = record { header = header; output = output; finished = finished }

abbrev pending : Option File → List Message
pending none = []
pending (some f) = f.messages

-- Enough is written, whatever was recorded before.
abbrev Records : FileHeader → List File → Option File → List (Entry × ℤ) → Type 0
Records header finished output es =
    (w : FileWriter) × (run (writer header finished output) es ≡ ok w)
    × (recorded (close_file w).finished ≡ recorded finished ++ stretches (pending output) es)

closing :
    (finished : List File) (f : File)
    → recorded (finished ++ f ∷ []) ≡ recorded finished ++ flush f.messages
closing finished f =
    recorded-append finished (f ∷ [])
    ∙ ap (λ l. recorded finished ++ l) (append-nil (flush f.messages))

-- A gap, from what the entries after it come to.
ended :
    (header : FileHeader) (finished : List File) (h : FileHeader) (messages : List Message)
    (now : ℤ) (es : List (Entry × ℤ))
    → Records header finished (some (record { header = h; messages = [] })) es
    → Records header (finished ++ record { header = h; messages = messages } ∷ []) none es
    → Records header finished (some (record { header = h; messages = messages })) ((none, now) ∷ es)
unfolding run consume close_file end_stretch
ended header finished h [] now es kept fresh = kept
ended header finished h (m ∷ ms) now es kept (w, e, r) = (
  w,
  e,
  r
      ∙ ap (λ l. l ++ stretches [] es) (closing finished (record { header = h; messages = m ∷ ms }))
      ∙ append_assoc (recorded finished) (flush (m ∷ ms)) (stretches [] es),
)

records :
    (header : FileHeader) (finished : List File) (output : Option File) (es : List (Entry × ℤ))
    → Records header finished output es
unfolding run consume close_file end_stretch record_message open_file write
records header finished none [] =
    (writer header finished none, refl, sym (append-nil (recorded finished)))
records header finished (some f) [] = (writer header finished (some f), refl, closing finished f)
records header finished none ((none, now) ∷ es) = records header finished none es
records header finished none ((some m, now) ∷ es) =
    records (record header { start_time_ns = now }) finished
      (some (record { header = record header { start_time_ns = now }; messages = m ∷ [] })) es
records header finished (some f) ((some m, now) ∷ es) =
    records header finished (some (record f { messages = f.messages ++ m ∷ [] })) es
records header finished (some f) ((none, now) ∷ es) =
    ended header finished f.header f.messages now es
      (records header finished (some (record f { messages = [] })) es)
      (records header (finished ++ f ∷ []) none es)

-- On a disk that takes every file and write, a writer records all that it is given: the files that
-- have messages, once the last is closed, are the unbroken stretches of the stream, in order, each
-- with the messages of its own stretch, in order, and no message is lost or written twice.
pub stretches-recorded :
    (venue : Text) (book : BookSpec) (precision : PairPrecision) (start : ℤ) (es : List (Entry × ℤ))
    → (opened : FileWriter) × (make_file_writer venue book precision start true ≡ ok opened)
      × (w : FileWriter) × (run opened es ≡ ok w)
      × (recorded (close_file w).finished ≡ stretches [] es)
unfolding make_file_writer open_file make_file_header
stretches-recorded venue book precision start es =
    let header = record (make_file_header venue book precision start) { start_time_ns = start } in
    let (w, e, r) = records header [] (some (record { header = header; messages = [] })) es in
    (writer header [] (some (record { header = header; messages = [] })), refl, w, e, r)
