-- ===== src/Shell/Keys.antt =====
-- `ReadLine` of internal/shell/shell.go: the keys that edit a line. Of the terminal, only what it reads
-- is modelled.
use korik.Prelude.{
  Bool, List, Option, Str, [], drop, get_elem?, if◌then◌else◌, int_eq, leb, length, ltb, ltb_ℤ,
  negsuc, none, not, pos, pred_ℤ, some, suc_ℤ, take, ℕ, ℤ, ◌&&◌, ◌++◌, ◌>>=◌, ◌||◌, ◌∷◌, ◌≟◌,
}
use korik.Shell.{Shell, complete, is_line_end}

-- The line that is edited: its text, the cursor, and the place in the history, which are ints in Go.
pub record Editor : Type 0 where
  pub buf : Str
  pub pos : ℤ
  pub hist_idx : ℤ

pub data Progress : Type 0 where
  goes_on : Editor → Progress
  line : Str → Progress
  end_of_input : Progress
  read_error : Progress
  panics : Progress

-- buf[:i] and buf[i:], where `none` is a panic. An index behind the text counts as one: Go lets
-- buf[:i] go up to the capacity, but every cut of the code at an index takes both sides of it.
unfoldable pub slice_to : Str → ℤ → Option Str
slice_to buf (pos i) = if leb i (length buf) then some (take i buf) else none
slice_to buf (negsuc i) = none

unfoldable pub slice_from : Str → ℤ → Option Str
slice_from buf (pos i) = if leb i (length buf) then some (drop i buf) else none
slice_from buf (negsuc i) = none

-- history[i], where `none` is a panic
unfoldable pub index_at : List Str → ℤ → Option Str
index_at lines (pos i) = get_elem? lines i
index_at lines (negsuc i) = none

unfoldable pub start : Shell → Editor
start s = record { buf = []; pos = pos 0; hist_idx = pos (length s.history) }

-- A key gives the next editor, or `none` where it panics.
unfoldable pub put_text : Editor → Str → Editor
put_text e text = record e { buf = text; pos = pos (length text) }

unfoldable pub tab : Shell → Editor → Editor
unfolding put_text
tab s e = elim (complete s e.buf) [
  | [] ↦ e
  | c ∷ more ↦ elim more [ [] ↦ put_text e c | _ ∷ _ ↦ e ]
]

unfoldable pub erase : Editor → Option Editor
unfolding slice_to slice_from
erase e = do
  before ← slice_to e.buf (pred_ℤ e.pos)
  after ← slice_from e.buf e.pos
  some (record e { buf = before ++ after; pos = pred_ℤ e.pos })

unfoldable pub backspace : Editor → Option Editor
unfolding erase
backspace e = if ltb_ℤ (pos 0) e.pos then erase e else some e

unfoldable pub recall : Shell → Editor → ℤ → Option Editor
unfolding index_at put_text
recall s e i = do text ← index_at s.history i; some (put_text (record e { hist_idx = i }) text)

unfoldable pub up : Shell → Editor → Option Editor
unfolding recall
up s e = if ltb_ℤ (pos 0) e.hist_idx then recall s e (pred_ℤ e.hist_idx) else some e

unfoldable pub down : Shell → Editor → Option Editor
unfolding recall
down s e =
    let i = suc_ℤ e.hist_idx in
    if not (ltb_ℤ e.hist_idx (pos (length s.history)))
    then some e
    else if int_eq i (pos (length s.history))
    then some (put_text (record e { hist_idx = i }) [])
    else recall s e i

unfoldable pub right : Editor → Editor
right e = if ltb_ℤ e.pos (pos (length e.buf)) then record e { pos = suc_ℤ e.pos } else e

unfoldable pub left : Editor → Editor
left e = if ltb_ℤ (pos 0) e.pos then record e { pos = pred_ℤ e.pos } else e

-- The rest of what was read after an escape.
unfoldable pub escape : Shell → Editor → Str → Option Editor
unfolding up down right left
escape s e (a ∷ c ∷ more) =
    if not (a ≟ 91)
    then some e
    else if c ≟ 65
    then up s e
    else if c ≟ 66
    then down s e
    else if c ≟ 67
    then some (right e)
    else if c ≟ 68
    then some (left e)
    else some e
escape s e _ = some e

unfoldable pub type_rune : Editor → ℕ → Option Editor
unfolding slice_to slice_from
type_rune e r = do
  before ← slice_to e.buf e.pos
  after ← slice_from e.buf e.pos
  some (record e { buf = before ++ r ∷ after; pos = suc_ℤ e.pos })

-- The next round, or the panic.
unfoldable pub next_round : Option Editor → Progress
next_round none = panics
next_round (some e) = goes_on e

unfoldable pub is_printable : ℕ → Bool
is_printable b = leb 32 b && ltb b 127

-- One round of the loop of `ReadLine`, for the bytes of one read: at most three.
unfoldable pub step : Shell → Editor → Str → Progress
unfolding is_line_end tab backspace escape type_rune is_printable next_round
step s e [] = goes_on e
step s e (b ∷ more) =
    if is_line_end b
    then line e.buf
    else if (b ≟ 3) || (b ≟ 4)
    then (elim e.buf [ [] ↦ end_of_input | _ ∷ _ ↦ goes_on e ])
    else if b ≟ 9
    then goes_on (tab s e)
    else if (b ≟ 127) || (b ≟ 8)
    then next_round (backspace e)
    else if b ≟ 27
    then next_round (escape s e more)
    else if is_printable b
    then next_round (type_rune e b)
    else goes_on e

-- The rounds of the loop for what the reads give, and an error after them.
unfoldable pub read_on : Shell → Editor → List Str → Progress
unfolding step
read_on s e [] = read_error
read_on s e (bytes_read ∷ reads) = elim (step s e bytes_read) [
  | goes_on e' ↦ read_on s e' reads
  | line text ↦ line text
  | end_of_input ↦ end_of_input
  | read_error ↦ read_error
  | panics ↦ panics
]

-- `ReadLine` on a terminal
unfoldable pub read_line : Shell → List Str → Progress
unfolding start read_on
read_line s reads = read_on s (start s) reads

-- `ReadLine` where the input is no terminal: the bytes up to the end of the input.
unfoldable pub read_plain : Str → Str → Progress
read_plain [] [] = end_of_input
read_plain (b ∷ buf) [] = line (b ∷ buf)
read_plain buf (c ∷ input) =
    let added = read_plain (buf ++ c ∷ []) input in
    let on = read_plain buf input in if c ≟ 10 then line buf else if not (c ≟ 13) then added else on
