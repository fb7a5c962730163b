-- ===== src/Protocol/Sse.antt =====
-- internal/protocol/sse.go: the reader and the writer of server-sent events, over bytes.
pub mod Lines
pub mod Frames
pub mod RoundTrip
use newapi_box.Prelude.{
  ℕ, ◌==◌, ltb, Bool, true, false, not, ◌&&◌, ◌||◌, if◌then◌else◌, List, [], ◌∷◌, ◌++◌, Option,
  none, some, is_empty, length,
}
use newapi_box.Text.{Text, codes, equal, trim_right, has_prefix, trim_prefix, cut, cut_prefix, join}

-- maxEventBytes: the scanner applies it to a line
abbrev pub max_event_bytes : ℕ
max_event_bytes = 4_194_304

pub record Event : Type 0 where
  pub name : Text
  pub body : Text

-- The lines of a stream by line feeds; a last line may lack its line feed.
push : ℕ → List Text → List Text
push c [] = (c ∷ []) ∷ []
push c (l ∷ ls) = (c ∷ l) ∷ ls

unfoldable pub split_lines : Text → List Text
unfolding push
split_lines [] = []
split_lines (c ∷ s) = let rest = split_lines s in if c == b'\n' then [] ∷ rest else push c rest

-- bufio.ScanLines drops one carriage return at the end of a line.
unfoldable pub drop_cr : Text → Text
drop_cr [] = []
drop_cr (c ∷ []) = if c == b'\r' then [] else c ∷ []
drop_cr (c ∷ d ∷ s) = c ∷ drop_cr (d ∷ s)

-- A Reader: the lines that its scanner will yet deliver, and whether the scanner then has an error.
pub record Reader : Type 0 where
  pub lines : List Text
  pub fails : Bool

-- The scanner stops with an error at a line that does not fit its buffer.
unfoldable pub scan_lines : Bool → List Text → Reader
unfolding drop_cr
scan_lines fails [] = record { lines = []; fails = fails }
scan_lines fails (l ∷ ls) =
    let rest = scan_lines fails ls in
    if ltb (length l) max_event_bytes
    then record { lines = drop_cr l ∷ rest.lines; fails = rest.fails }
    else record { lines = []; fails = true }

-- NewReader over a stream that yields these bytes, and then the end or a read error
unfoldable pub new_reader : Text → Bool → Reader
unfolding split_lines scan_lines
new_reader s fails = scan_lines fails (split_lines s)

-- The variables of Next.
pub record Frame : Type 0 where
  pub name : Text
  pub datas : List Text
  pub saw_any : Bool

abbrev pub empty_frame : Frame
empty_frame = record { name = []; datas = []; saw_any = false }

-- The switch over the field's name.
take_field : Frame → Text → Text → Frame
unfolding equal
take_field f field value =
    if equal field (codes "event")
    then record f { name = value; saw_any = true }
    else if equal field (codes "data")
    then record f { datas = f.datas ++ value ∷ []; saw_any = true }
    else record f { saw_any = true }

take_cut : Frame → Option (Text × Text) → Frame
unfolding take_field trim_prefix
take_cut f none = record f { saw_any = true }
take_cut f (some (field, value)) = take_field f field (trim_prefix value (codes " "))

-- The part of the loop's body behind the test for a blank line.
unfoldable pub take_line : Frame → Text → Frame
unfolding take_cut has_prefix cut
take_line f line = if has_prefix line (codes ":") then f else take_cut f (cut line b':')

-- The results of Next.
pub data NextResult : Type 0 where
  event : Event → NextResult
  finished : NextResult
  failed : NextResult

unfoldable pub frame_event : Frame → Event
unfolding join
frame_event f = record { name = f.name; body = join f.datas (codes "\n") }

-- The part of Next behind the loop.
unfoldable pub at_end : Frame → Bool → NextResult
unfolding frame_event
at_end f fails = if fails then failed else if f.saw_any then event (frame_event f) else finished

-- The loop of Next; the second result is the scanner's rest.
unfoldable pub read_frame : Frame → List Text → Bool → NextResult × List Text
unfolding at_end take_line trim_right
read_frame f [] fails = (at_end f fails, [])
read_frame f (l ∷ ls) fails =
    let line = trim_right l b'\r' in
    let more = read_frame (if is_empty line then f else take_line f line) ls fails in
    if is_empty line && f.saw_any then (event (frame_event f), ls) else more

-- Reader.Next
unfoldable pub next : Reader → NextResult × Reader
unfolding read_frame
next r =
    let (result, rest) = read_frame empty_frame r.lines r.fails in
    (result, record r { lines = rest })

-- Writer.WriteData
unfoldable pub write_data : Text → Text
write_data body = codes "data: " ++ (body ++ codes "\n\n")

-- Writer.WriteEvent
unfoldable pub write_named : Text → Text → Text
unfolding write_data
write_named name body = codes "event: " ++ (name ++ (codes "\n" ++ write_data body))

-- Writer.WriteDone
unfoldable pub write_done : Text
unfolding write_data
write_done = write_data (codes "[DONE]")

-- Writer.WriteComment
unfoldable pub write_comment : Text → Text
write_comment text = codes ": " ++ (text ++ codes "\n\n")

-- writeEvent of internal/proxy/response.go
unfoldable pub write_event : Event → Text
unfolding write_data write_named
write_event e = if is_empty e.name then write_data e.body else write_named e.name e.body
