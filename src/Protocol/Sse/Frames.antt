-- ===== src/Protocol/Sse/Frames.antt =====
-- The lines that the writer makes, as the reader takes them.
use newapi_box.Prelude.{
  ◌+◌, ◌<◌, ◌≡◌, refl, sym, ap, ◌∙◌, Bool, true, false, List, [], ◌∷◌, ◌++◌, arith, length,
  is_empty, length-append, append_assoc, append-nil, All-append,
}
use newapi_box.Text.{Text, codes, trim_right}
use newapi_box.Protocol.Sse.{
  Event, split_lines, scan_lines, Reader, new_reader, max_event_bytes, Frame, empty_frame,
  take_line, event, frame_event, read_frame, write_data, write_named,
}
use newapi_box.Protocol.Sse.Lines.{
  IsLine, EndsClear, split_lines-line, trim_cr_clear, scan_lines-cons, EndsClear-append,
}

-- A text that one line can carry behind its field's name: no line feed in it, no carriage return
-- at its end, and shorter than the scanner's buffer.
pub record IsCarried (s : Text) : Type 0 where
  pub line : IsLine s
  pub clear : EndsClear s
  pub short : length s + 7 < max_event_bytes

abbrev pub IsCarriedEvent : Event → Type 0
IsCarriedEvent e = IsCarried e.name × IsCarried e.body

pub read_frame-line :
    (f : Frame) (l : Text) (ls : List Text) (fails : Bool)
    → EndsClear l
    → is_empty l ≡ false
    → read_frame f (l ∷ ls) fails ≡ read_frame (take_line f l) ls fails
unfolding read_frame
read_frame-line f l ls fails clear there = rw (trim_cr_clear l clear) (rw there refl)

read_frame-blank :
    (f : Frame) (ls : List Text) (fails : Bool)
    → f.saw_any ≡ true
    → read_frame f ([] ∷ ls) fails ≡ (event (frame_event f), ls)
unfolding read_frame trim_right
read_frame-blank f ls fails h = rw h refl

take_line-event :
    (f : Frame) (name : Text)
    → take_line f (codes "event: " ++ name) ≡ record f { name = name; saw_any = true }
unfolding take_line
take_line-event f name = refl

take_line-data :
    (f : Frame) (body : Text)
    → take_line f (codes "data: " ++ body)
      ≡ record f { datas = f.datas ++ body ∷ []; saw_any = true }
unfolding take_line
take_line-data f body = refl

pub take_line-comment : (f : Frame) (text : Text) → take_line f (codes ": " ++ text) ≡ f
unfolding take_line
take_line-comment f text = refl

pub EndsClear-join : (l m : Text) → EndsClear l → EndsClear m → EndsClear (l ++ m)
EndsClear-join l [] h k = rw append-nil h
EndsClear-join l (c ∷ m) h k = EndsClear-append l (c ∷ m) (λ e. cc) k

-- A line of the writer: a prefix of its own and a carried text.
pub new_reader-line :
    (p s rest : Text) (fails : Bool)
    → IsLine p
    → EndsClear p
    → length p < 8
    → IsCarried s
    → new_reader (p ++ (s ++ (b'\n' ∷ rest))) fails
      ≡ (let r = new_reader rest fails in record { lines = (p ++ s) ∷ r.lines; fails = r.fails })
unfolding new_reader
new_reader-line p s rest fails lp cp short h =
    ap (λ t. scan_lines fails (split_lines t)) (sym (append_assoc p s (b'\n' ∷ rest)))
    ∙ ap (scan_lines fails) (split_lines-line (p ++ s) rest (All-append _ p s lp h.line))
    ∙ scan_lines-cons fails (p ++ s) (split_lines rest) (omega (arith, length-append p s, h.short))
        (EndsClear-join p s cp h.clear)

pub new_reader-blank :
    (rest : Text) (fails : Bool)
    → new_reader (b'\n' ∷ rest) fails
      ≡ (let r = new_reader rest fails in record { lines = [] ∷ r.lines; fails = r.fails })
unfolding new_reader
new_reader-blank rest fails =
    ap (scan_lines fails) (split_lines-line [] rest tt)
    ∙ scan_lines-cons fails [] (split_lines rest) (omega arith) tt

-- The reader over a frame of the writer, and what it has at the frame's end.
abbrev pub with_lines : List Text → Reader → Reader
with_lines ls r = record { lines = ls ++ r.lines; fails = r.fails }

pub new_reader-write_data :
    (body rest : Text) (fails : Bool)
    → IsCarried body
    → new_reader (write_data body ++ rest) fails
      ≡ with_lines ((codes "data: " ++ body) ∷ [] ∷ []) (new_reader rest fails)
unfolding write_data
new_reader-write_data body rest fails h =
    ap (λ t. new_reader (codes "data: " ++ t) fails) (append_assoc body (codes "\n\n") rest)
    ∙ new_reader-line (codes "data: ") body (b'\n' ∷ rest) fails (omega arith) (omega arith)
        (omega arith) h
    ∙ ap (with_lines ((codes "data: " ++ body) ∷ [])) (new_reader-blank rest fails)

pub new_reader-write_named :
    (name body rest : Text) (fails : Bool)
    → IsCarried name
    → IsCarried body
    → new_reader (write_named name body ++ rest) fails
      ≡ with_lines
          ((codes "event: " ++ name) ∷ (codes "data: " ++ body) ∷ [] ∷ [])
          (new_reader rest fails)
unfolding write_named
new_reader-write_named name body rest fails hn hb =
    ap (λ t. new_reader (codes "event: " ++ t) fails)
      (append_assoc name (codes "\n" ++ write_data body) rest)
    ∙ new_reader-line (codes "event: ") name (write_data body ++ rest) fails (omega arith)
        (omega arith) (omega arith) hn
    ∙ ap (with_lines ((codes "event: " ++ name) ∷ [])) (new_reader-write_data body rest fails hb)

EndsClear-data : (body : Text) → EndsClear body → EndsClear (codes "data: " ++ body)
EndsClear-data body h = EndsClear-join (codes "data: ") body (omega arith) h

EndsClear-event : (name : Text) → EndsClear name → EndsClear (codes "event: " ++ name)
EndsClear-event name h = EndsClear-join (codes "event: ") name (omega arith) h

pub read_frame-data :
    (f : Frame) (body : Text) (ls : List Text) (fails : Bool)
    → EndsClear body
    → f.datas ≡ []
    → read_frame f ((codes "data: " ++ body) ∷ [] ∷ ls) fails
      ≡ (event (record { name = f.name; body = body }), ls)
read_frame-data f body ls fails h e =
    read_frame-line f (codes "data: " ++ body) ([] ∷ ls) fails (EndsClear-data body h) refl
    ∙ ap (λ g. read_frame g ([] ∷ ls) fails) (take_line-data f body)
    ∙ read_frame-blank _ ls fails refl
    ∙ rw e (unfold frame_event in refl)

pub read_frame-named :
    (name body : Text) (ls : List Text) (fails : Bool)
    → EndsClear name
    → EndsClear body
    → read_frame empty_frame ((codes "event: " ++ name) ∷ (codes "data: " ++ body) ∷ [] ∷ ls) fails
      ≡ (event (record { name = name; body = body }), ls)
read_frame-named name body ls fails hn hb =
    read_frame-line empty_frame (codes "event: " ++ name) _ fails (EndsClear-event name hn) refl
    ∙ ap (λ g. read_frame g ((codes "data: " ++ body) ∷ [] ∷ ls) fails)
        (take_line-event empty_frame name)
    ∙ read_frame-data _ body ls fails hb refl
