-- ===== src/Shell/Keyboard.antt =====
-- kernel/shell/shell_keyboard.c: `shell_handle_key`, which is the newer editor's with the bound written
-- as 255, and `terminal_readline`, which polls the keyboard's port for scan codes.
pub mod Lines
pub mod Safe
mod Tests
use larch.Prelude.{
  ℕ, zero, suc, ◌+◌, ◌-◌, Bool, true, false, ◌&&◌, Option, none, some, List, [], ◌∷◌, ◌++◌, ◌==◌,
  ltb, leb, if◌then◌else◌, ◌>>=◌, newline, backspace, escape, length, get_or, set?, replicate,
}
use larch.Console.{Event, put, writestring}
use larch.Libc.Strings.{c_text, strlen}
use larch.Shell.History.{History, history_prev, history_next}
use larch.Shell.Process.{Env}
use larch.Shell.Editor
use larch.Shell.Editor.{Shell, Step, copy_line}

abbrev pub shell_handle_key : Env → Shell → ℕ → Step
shell_handle_key = Editor.shell_handle_key

-- The `switch` over the scan codes.
abbrev pub scancodes : List (ℕ × ℕ)
scancodes =
    (0x1C, newline)
    ∷ (0x0E, backspace)
    ∷ (0x01, escape)
    ∷ (0x02, b'1')
    ∷ (0x03, b'2')
    ∷ (0x04, b'3')
    ∷ (0x05, b'4')
    ∷ (0x06, b'5')
    ∷ (0x07, b'6')
    ∷ (0x08, b'7')
    ∷ (0x09, b'8')
    ∷ (0x0A, b'9')
    ∷ (0x0B, b'0')
    ∷ (0x10, b'q')
    ∷ (0x11, b'w')
    ∷ (0x12, b'e')
    ∷ (0x13, b'r')
    ∷ (0x14, b't')
    ∷ (0x15, b'y')
    ∷ (0x16, b'u')
    ∷ (0x17, b'i')
    ∷ (0x18, b'o')
    ∷ (0x19, b'p')
    ∷ (0x1E, b'a')
    ∷ (0x1F, b's')
    ∷ (0x20, b'd')
    ∷ (0x21, b'f')
    ∷ (0x22, b'g')
    ∷ (0x23, b'h')
    ∷ (0x24, b'j')
    ∷ (0x25, b'k')
    ∷ (0x26, b'l')
    ∷ (0x2C, b'z')
    ∷ (0x2D, b'x')
    ∷ (0x2E, b'c')
    ∷ (0x2F, b'v')
    ∷ (0x30, b'b')
    ∷ (0x31, b'n')
    ∷ (0x32, b'm')
    ∷ (0x39, b' ')
    ∷ []

-- The character of the first row with that scan code; 0 for none.
unfoldable pub find_code : ℕ → List (ℕ × ℕ) → ℕ
find_code scancode [] = 0
find_code scancode (row ∷ rows) = if scancode == row.0 then row.1 else find_code scancode rows

unfoldable pub ascii_of : ℕ → ℕ
ascii_of scancode = find_code scancode scancodes

-- The caller's buffer, the local `pos`, and the history.
pub record Line : Type 0 where
  pub buf : List ℕ
  pub pos : ℕ
  pub history : History

-- The reads of port 0x60: the one of the loop, those of `seq[0]` and `seq[1]`, and the one that
-- overwrites `seq[0]`.
pub data Read : Type 0 where
  scancode : Read
  seq_first : Read
  seq_second : ℕ → Read
  seq_third : Read

-- Where the function is after a byte: back at its caller, or at its next read.
pub data Outcome : Type 0 where
  returned : Line → List Event → Outcome
  reading : Read → Line → List Event → Outcome

-- `for (int i = 0; i < pos; i++) vga_putchar('\b');`
abbrev pub back : ℕ → List Event
back pos = replicate pos (put backspace)

-- `strcpy(buf, text)`, which knows no `max_len`.
pub recall_line : Line → List ℕ → Option Outcome
recall_line s text = copy_line s.buf text >>= (λ buf. some (
    reading scancode (record s { buf = buf; pos = strlen text })
      (back s.pos ++ writestring (c_text buf))))

-- The two branches on the last byte of an arrow.
pub read_arrow : Line → ℕ → Option Outcome
read_arrow s key =
    let up : Option Outcome =
      (history_prev s.history >>= (λ r.
        let s1 = record s { history = r.1 } in
        if get_or r.0 0 0 == 0 then some (reading scancode s1 []) else recall_line s1 r.0)) in
    let down : Option Outcome =
      (history_next s.history >>= (λ r.
        let s1 = record s { history = r.1 } in
        let cleared : Option Outcome =
          (set? s.buf 0 0
            >>= (λ buf. some (reading scancode (record s1 { buf = buf; pos = 0 }) (back s.pos)))) in
        if get_or r.0 0 0 == 0 then cleared else recall_line s1 r.0)) in
    if key == 0x48 then up else (if key == 0x50 then down else some (reading scancode s []))

-- The chain of branches on the character.
pub read_ascii : (max_len : ℕ) → Line → (ascii : ℕ) → Option Outcome
read_ascii max_len s ascii =
    let enter : Option Outcome =
      (set? s.buf s.pos 0
        >>= (λ buf. some (returned (record s { buf = buf }) (put newline ∷ [])))) in
    let store : Option Outcome =
      (set? s.buf s.pos ascii >>= (λ buf.
        some (reading scancode (record s { buf = buf; pos = s.pos + 1 }) (put ascii ∷ [])))) in
    if ascii == newline
    then enter
    else (if (ascii == backspace) && ltb 0 s.pos
        then some (reading scancode (record s { pos = s.pos - 1 }) (put backspace ∷ []))
        else (if leb 32 ascii && leb ascii 126 && ltb s.pos (max_len - 1)
            then store
            else some (reading (if ascii == escape then seq_first else scancode) s [])))

-- What the function does with a byte, up to its next read. A code with the top bit is a released key.
pub read_byte : (max_len : ℕ) → Read → Line → ℕ → Option Outcome
read_byte max_len scancode s code =
    let pressed = read_ascii max_len s (ascii_of code) in
    if leb 0x80 code then some (reading scancode s []) else pressed
read_byte max_len seq_first s code = some (reading (seq_second code) s [])
read_byte max_len (seq_second first) s code =
    some (reading (if (first == 0x1C) && (code == 0x4D) then seq_third else scancode) s [])
read_byte max_len seq_third s code = read_arrow s code

abbrev pub prefix : List Event → Outcome → Outcome
prefix out (returned s more) = returned s (out ++ more)
prefix out (reading at s more) = reading at s (out ++ more)

-- The function on the bytes that the port gives, from one of its reads on.
pub readline_from : (max_len : ℕ) → Read → Line → List ℕ → Option Outcome
readline_from max_len at s [] = some (reading at s [])
readline_from max_len at s (code ∷ rest) = read_byte max_len at s code >>= (λ o. elim o [
  | returned s1 out ↦ some (returned s1 out)
  | reading at1 s1 out ↦ readline_from max_len at1 s1 rest >>= (λ q. some (prefix out q))
])

-- From the top of the loop, with nothing typed. The loop polls the port and never asks its status: `codes`
-- are what the reads give one after the other, so a code that stays there is in the list once for each
-- read of it.
pub terminal_readline : (buf : List ℕ) (max_len : ℕ) → History → List ℕ → Option Outcome
terminal_readline buf max_len h codes =
    readline_from max_len scancode (record { buf = buf; pos = 0; history = h }) codes
