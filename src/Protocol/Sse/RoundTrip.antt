-- ===== src/Protocol/Sse/RoundTrip.antt =====
-- What the writer emits, the reader reads back.
use newapi_box.Prelude.{
  ◌≡◌, refl, ap, ◌∙◌, Bool, false, List, [], ◌∷◌, ◌++◌, arith, All, is_empty, if◌then◌else◌,
  append_assoc,
}
use newapi_box.Text.{Text, codes, trim_right}
use newapi_box.Protocol.Sse.{
  Event, Reader, new_reader, empty_frame, NextResult, event, finished, read_frame, next, write_data,
  write_named, write_comment, write_event,
}
use newapi_box.Protocol.Sse.Lines.{EndsClear}
use newapi_box.Protocol.Sse.Frames.{
  IsCarried, IsCarriedEvent, read_frame-line, take_line-comment, EndsClear-join, new_reader-line,
  new_reader-blank, with_lines, new_reader-write_data, new_reader-write_named, read_frame-data,
  read_frame-named,
}

next-write_data :
    (body rest : Text) (fails : Bool)
    → IsCarried body
    → next (new_reader (write_data body ++ rest) fails)
      ≡ (event (record { name = []; body = body }), new_reader rest fails)
next-write_data body rest fails h =
    ap next (new_reader-write_data body rest fails h)
    ∙ unfold next in
      ap
        (λ (x : NextResult × List Text).
          let r : NextResult × Reader =
            (x.0, record { lines = x.1; fails = (new_reader rest fails).fails }) in
          r)
        (read_frame-data empty_frame body (new_reader rest fails).lines _ h.clear refl)

next-write_named :
    (name body rest : Text) (fails : Bool)
    → IsCarried name
    → IsCarried body
    → next (new_reader (write_named name body ++ rest) fails)
      ≡ (event (record { name = name; body = body }), new_reader rest fails)
next-write_named name body rest fails hn hb =
    ap next (new_reader-write_named name body rest fails hn hb)
    ∙ unfold next in
      ap
        (λ (x : NextResult × List Text).
          let r : NextResult × Reader =
            (x.0, record { lines = x.1; fails = (new_reader rest fails).fails }) in
          r)
        (read_frame-named name body (new_reader rest fails).lines _ hn.clear hb.clear)

-- An event whose name and data each fit a line is read back as it was written, with or without a
-- name, whatever stands behind it in the stream, and the reader stands at what is behind it.
next-write_event :
    (e : Event) (rest : Text) (fails : Bool)
    → IsCarriedEvent e
    → next (new_reader (write_event e ++ rest) fails) ≡ (event e, new_reader rest fails)
unfolding write_event
next-write_event e rest fails h = named e.name h.0
  where
    named :
        (name : Text)
        → IsCarried name
        → next (
            new_reader
              ((if is_empty name then write_data e.body else write_named name e.body) ++ rest)
              fails)
          ≡ (event (record { name = name; body = e.body }), new_reader rest fails)
    named [] hn = next-write_data e.body rest fails h.1
    named (c ∷ name) hn = next-write_named (c ∷ name) e.body rest fails hn h.1

read_frame-gap :
    (ls : List Text) (fails : Bool)
    → read_frame empty_frame ([] ∷ ls) fails ≡ read_frame empty_frame ls fails
unfolding read_frame trim_right
read_frame-gap ls fails = refl

read_frame-comment :
    (text : Text) (ls : List Text) (fails : Bool)
    → EndsClear text
    → read_frame empty_frame ((codes ": " ++ text) ∷ [] ∷ ls) fails
      ≡ read_frame empty_frame ls fails
read_frame-comment text ls fails h =
    read_frame-line empty_frame (codes ": " ++ text) ([] ∷ ls) fails
      (EndsClear-join (codes ": ") text (omega arith) h) refl
    ∙ ap (λ g. read_frame g ([] ∷ ls) fails) (take_line-comment empty_frame text)
    ∙ read_frame-gap ls fails

new_reader-write_comment :
    (text rest : Text) (fails : Bool)
    → IsCarried text
    → new_reader (write_comment text ++ rest) fails
      ≡ with_lines ((codes ": " ++ text) ∷ [] ∷ []) (new_reader rest fails)
unfolding write_comment
new_reader-write_comment text rest fails h =
    ap (λ t. new_reader (codes ": " ++ t) fails) (append_assoc text (codes "\n\n") rest)
    ∙ new_reader-line (codes ": ") text (b'\n' ∷ rest) fails (omega arith) (omega arith)
        (omega arith) h
    ∙ ap (with_lines ((codes ": " ++ text) ∷ [])) (new_reader-blank rest fails)

-- A comment of one line is no event: the reader goes on behind it as if it were not there.
next-write_comment :
    (text rest : Text) (fails : Bool)
    → IsCarried text
    → next (new_reader (write_comment text ++ rest) fails) ≡ next (new_reader rest fails)
next-write_comment text rest fails h =
    ap next (new_reader-write_comment text rest fails h)
    ∙ unfold next in
      ap
        (λ (x : NextResult × List Text).
          let r : NextResult × Reader =
            (x.0, record { lines = x.1; fails = (new_reader rest fails).fails }) in
          r)
        (read_frame-comment text (new_reader rest fails).lines _ h.clear)

-- The events that Next delivers one after the other, up to one result that is no event.
pub data Delivers (last : NextResult) : Reader → List Event → Type 0 where
  stop : {r : Reader} → (next r).0 ≡ last → Delivers last r []
  more :
      {r q : Reader} {e : Event} {es : List Event}
      → next r ≡ (event e, q)
      → Delivers last q es
      → Delivers last r (e ∷ es)

-- What the writer emits for a sequence of events.
unfoldable pub write_events : List Event → Text
unfolding write_event
write_events [] = []
write_events (e ∷ es) = write_event e ++ write_events es

next-nil : (next (new_reader [] false)).0 ≡ finished
unfolding next new_reader
next-nil = refl

-- Events whose names and data each fit one line of the reader, written to a stream one after the
-- other, come back in their order, no more and no fewer, and then the reader reports the end of the
-- stream.
pub write_events-Delivers :
    (es : List Event)
    → All IsCarriedEvent es
    → Delivers finished (new_reader (write_events es) false) es
unfolding write_events
write_events-Delivers [] h = stop next-nil
write_events-Delivers (e ∷ es) h =
    more (next-write_event e (write_events es) false h.0) (write_events-Delivers es h.1)
