-- ===== src/Rpc/Frames.antt =====
-- internal/smoke/probe.go: the lines of a stream, and the response in a body. A stream is the slices
-- that its buffered reader gives; JSON decoding is a parameter.
use mcp_library.Common.{
  ℕ, ◌+◌, ◌≡◌, refl, sym, ap, subst, ◌∙◌, inl, inr, Bool, true, false, ◌&&◌, ◌||◌, not, List, [],
  ◌∷◌, ◌++◌, Option, none, some, append_assoc, append-nil, is_nil, length, length-append, ltb,
  on_if, arith, ◌==◌, if◌then◌else◌,
}
use mathlib.Core.List.{reverse}
use mcp_library.Common.Result.{Result, ok, err}
use mcp_library.Common.Tests.{Bool-cases, &&_left, &&_right}
use mcp_library.Common.Text.{Text, codes, text_eq, text_eq→eq, has_prefix, trim_prefix}
use mcp_library.Rpc.{Incoming, is_response, id_key}

-- How a slice ends: at a newline, at the end of the buffer, or with an error.
pub data SliceEnd : Type 0 where
  newline buffer_full stopped : SliceEnd

pub record Frame : Type 0 where
  pub line : Text
  pub too_long : Bool
  pub ended : Bool
  pub rest : List (Text × SliceEnd)

abbrev longer_line : ℕ → Text → Bool → Text → Text
longer_line max line too_long chunk =
    if too_long then line else if ltb max (length line + length chunk) then [] else line ++ chunk

unfoldable pub read_frame : ℕ → Text → Bool → List (Text × SliceEnd) → Frame
read_frame max line too_long [] = record {
  line = line;
  too_long = too_long;
  ended = true;
  rest = [];
}
read_frame max line too_long ((chunk, end) ∷ slices) =
    let line' = longer_line max line too_long chunk in
    let over = too_long || ltb max (length line + length chunk) in
    elim end [
      | buffer_full ↦ read_frame max line' over slices
      | newline ↦ record { line = line'; too_long = over; ended = false; rest = slices }
      | stopped ↦ record { line = line'; too_long = over; ended = true; rest = slices }
    ]

-- What stands in the stream up to the newline, or up to its end.
abbrev pub frame_text : List (Text × SliceEnd) → Text
frame_text [] = []
frame_text ((chunk, end) ∷ slices) = elim end [
  | buffer_full ↦ chunk ++ frame_text slices
  | newline ↦ chunk
  | stopped ↦ chunk
]

-- The whole text where it fits, and nothing else.
abbrev pub Cut : ℕ → Text → Frame → Type 0
Cut max text f =
    (f.too_long ≡ ltb max (length text)) × (f.line ≡ (if ltb max (length text) then [] else text))

too_long-stays :
    (max : ℕ) (slices : List (Text × SliceEnd))
    → ((read_frame max [] true slices).too_long ≡ true)
      × ((read_frame max [] true slices).line ≡ [])
unfolding read_frame
too_long-stays max [] = (refl, refl)
too_long-stays max ((chunk, buffer_full) ∷ slices) = too_long-stays max slices
too_long-stays max ((chunk, newline) ∷ slices) = (refl, refl)
too_long-stays max ((chunk, stopped) ∷ slices) = (refl, refl)

read_frame-Cut :
    (max : ℕ) (line : Text) (slices : List (Text × SliceEnd))
    → ltb max (length line) ≡ false
    → Cut max (line ++ frame_text slices) (read_frame max line false slices)
unfolding read_frame
read_frame-Cut max line [] fits = rw (append-nil line, fits) (refl, refl)
read_frame-Cut max line ((chunk, newline) ∷ slices) fits =
    rw (length-append line chunk) (refl, refl)
read_frame-Cut max line ((chunk, stopped) ∷ slices) fits =
    rw (length-append line chunk) (refl, refl)
read_frame-Cut max line ((chunk, buffer_full) ∷ slices) fits =
    elim (Bool-cases (ltb max (length line + length chunk))) [
      | inl over ↦
          let cut : ltb max (length (line ++ (chunk ++ frame_text slices))) ≡ true = ground (
            arith,
            over,
            length-append line (chunk ++ frame_text slices),
            length-append chunk (frame_text slices),
          ) in
          rw (over, cut, read_frame) (too_long-stays max slices)
      | inr room ↦
          rw (room, sym (append_assoc line chunk (frame_text slices)), read_frame)
            (read_frame-Cut max (line ++ chunk) slices (rw (length-append line chunk) room))
    ]

-- However the reader slices a stream, readFrame says that a line is too long exactly when what
-- stands up to the newline or the end is longer than the limit, and it returns all of it, or
-- nothing where it is too long.
pub read_frame_lem :
    (max : ℕ) (slices : List (Text × SliceEnd))
    → Cut max (frame_text slices) (read_frame max [] false slices)
read_frame_lem max slices = read_frame-Cut max [] slices (ground arith)

pub data ReadError : Type 0 where
  bad_body other_body long_event stream_ended bad_type : ReadError

-- A line of an event stream, and whether the stream ends with it.
pub record EventLine : Type 0 where
  pub text : Text
  pub too_long : Bool
  pub last : Bool

abbrev is_line_end : ℕ → Bool
is_line_end c = c == 13 || c == 10

abbrev drop_ends : Text → Text
drop_ends [] = []
drop_ends (c ∷ s) = let rest = drop_ends s in if is_line_end c then rest else c ∷ s

-- `bytes.TrimRight(line, "\r\n")`.
abbrev trim_ends : Text → Text
trim_ends s = reverse (drop_ends (reverse s))

module _ (decode : Text → Option Incoming) (id : Text) where
  abbrev pub answers : Incoming → Bool
  answers m = is_response m && text_eq (id_key m.id) id

  abbrev answer_in : Text → Option Incoming
  answer_in data' = elim (decode data') [
    | none ↦ none
    | some m ↦ if answers m then some m else none
  ]

  abbrev more_data : Text → Text → Text
  more_data text data' =
      if is_nil text && not (is_nil data')
      then []
      else if has_prefix (codes "data:") text
      then (if is_nil data' then [] else data' ++ (10 ∷ []))
        ++ trim_prefix (codes " ") (trim_prefix (codes "data:") text)
      else data'

  -- The event that an empty line ends, if it is the answer.
  abbrev event_answer : Text → Text → Option Incoming
  event_answer text data' = if is_nil text && not (is_nil data') then answer_in data' else none

  unfoldable pub read_events : List EventLine → Text → Result ReadError Incoming
  unfolding has_prefix trim_prefix id_key
  read_events [] data' = err stream_ended
  read_events (l ∷ ls) data' =
      let text = trim_ends l.text in
      let later = read_events ls (more_data text data') in
      let next : Result ReadError Incoming = if l.last then err stream_ended else later in
      if l.too_long
      then err long_event
      else elim (event_answer text data') [ some m ↦ ok m | none ↦ next ]

  abbrev json_answer : Option Incoming → Result ReadError Incoming
  json_answer none = err bad_body
  json_answer (some m) = if answers m then ok m else err other_body

  unfoldable pub read_response : Text → Text → List EventLine → Result ReadError Incoming
  unfolding read_events
  read_response content_type body lines =
      if text_eq content_type (codes "application/json")
      then json_answer (decode body)
      else if text_eq content_type (codes "text/event-stream")
      then read_events lines []
      else err bad_type

  -- The response that is read is one to the call.
  abbrev pub AnswersOnly : Result ReadError Incoming → Type 0
  AnswersOnly r = (m : Incoming) → r ≡ ok m → answers m ≡ true

  event_answer-only :
      (text data' : Text) (m : Incoming) → event_answer text data' ≡ some m → answers m ≡ true
  event_answer-only text data' m h = elim (Bool-cases (is_nil text && not (is_nil data'))) [
    | inr going ↦ absurd (cc (rw going at h))
    | inl end ↦ by_message (decode data') (rw end at h)
  ]
    where
      by_message :
          (o : Option Incoming)
          → elim o [ none ↦ none | some m ↦ if answers m then some m else none ] ≡ some m
          → answers m ≡ true
      by_message none h = absurd (cc h)
      by_message (some n) h = elim (Bool-cases (answers n)) [
        | inl y ↦ let e : n ≡ m = cc (rw y at h) in subst (λ k. answers k ≡ true) e y
        | inr other ↦ absurd (cc (rw other at h))
      ]

  read_events-only : (ls : List EventLine) (data' : Text) → AnswersOnly (read_events ls data')
  unfolding read_events
  read_events-only [] data' = λ m h. absurd (cc h)
  read_events-only (l ∷ ls) data' =
      on_if AnswersOnly l.too_long (λ long m h. absurd (cc h))
        (λ short.
          by_event (read_events-only ls (more_data (trim_ends l.text) data'))
            (event_answer (trim_ends l.text) data') refl)
    where
      by_event :
          AnswersOnly (read_events ls (more_data (trim_ends l.text) data'))
          → (o : Option Incoming) → event_answer (trim_ends l.text) data' ≡ o
          → AnswersOnly (elim o [
            | some m ↦ ok m
            | none ↦
                if l.last
                then err stream_ended
                else read_events ls (more_data (trim_ends l.text) data')
          ])
      by_event later none e = on_if AnswersOnly l.last (λ last m h. absurd (cc h)) (λ going. later)
      by_event later (some n) e =
          λ m h. event_answer-only (trim_ends l.text) data' m (e ∙ ap (λ k. some k) (cc h))

  -- For any decoding of messages, what readResponse returns, from a body of JSON or of events, is a
  -- response that echoes the id asked for.
  pub read_response-answers :
      (content_type body : Text) (lines : List EventLine) (m : Incoming)
      → read_response content_type body lines ≡ ok m
      → (is_response m ≡ true) × (id_key m.id ≡ id)
  unfolding read_response
  read_response-answers content_type body lines m h =
      let only =
        on_if AnswersOnly (text_eq content_type (codes "application/json"))
          (λ json. by_body (decode body))
          (λ other.
            on_if AnswersOnly (text_eq content_type (codes "text/event-stream"))
              (λ events. read_events-only lines []) (λ unknown n e. absurd (cc e))) in
      let answered = only m h in
      (
        &&_left (is_response m) (text_eq (id_key m.id) id) answered,
        text_eq→eq (id_key m.id) id (&&_right (is_response m) (text_eq (id_key m.id) id) answered),
      )
    where
      by_body : (o : Option Incoming) → AnswersOnly (json_answer o)
      by_body none = λ m h. absurd (cc h)
      by_body (some n) =
          on_if AnswersOnly (answers n)
            (λ y m h. let e : n ≡ m = cc h in subst (λ k. answers k ≡ true) e y)
            (λ other m h. absurd (cc h))
