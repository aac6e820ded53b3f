-- ===== src/Shell/Keyboard/Safe.antt =====
-- Reading a line leaves neither the buffer nor the history, whatever bytes the port gives.
use larch.Prelude.{
  ℕ, ◌+◌, ◌-◌, ◌≤◌, ◌<◌, ◌≡◌, refl, ◌&&◌, Option, some, List, [], ◌∷◌, ◌++◌, arith, ◌==◌, ltb, leb,
  ◌>>=◌, newline, backspace, length, get_or, set, set?, set?-eq-set, length-set, length-append,
  patch, length-patch, lt→ltb, inl, inr, Bool-cases,
}
use larch.Console.{Event, put, writestring}
use larch.Libc.Strings.{c_text, strlen}
use larch.Shell.History.{History}
use larch.Shell.History.Add
use larch.Shell.History.Served.{history_prev-Served, history_next-Served}
use larch.Shell.Editor.{copy_line}
use larch.Shell.Editor.Safe.{strlen-le}
use larch.Shell.Keyboard.{
  Line, Read, Outcome, scancode, seq_first, seq_second, seq_third, returned, reading, ascii_of,
  back, prefix, recall_line, read_arrow, read_ascii, read_byte, readline_from,
}

-- The buffer has `max_len` bytes and room for a row of the history, and the position is inside.
pub record IsValid (max_len : ℕ) (s : Line) : Type 0 where
  pub buffer : max_len ≤ length s.buf
  pub limit : 256 ≤ max_len
  pub cursor : s.pos < max_len
  pub history : Add.IsValid s.history

abbrev pub line : Outcome → Line
line (returned s out) = s
line (reading at s out) = s

-- The call is defined, and its line is valid.
pub record Reads (max_len : ℕ) (call : Option Outcome) : Type 0 where
  pub outcome : Outcome
  pub returns : call ≡ some outcome
  pub valid : IsValid max_len (line outcome)

recall_line-Reads :
    (max_len : ℕ) (s : Line) (text : List ℕ)
    → IsValid max_len s
    → length text < 256
    → Reads max_len (recall_line s text)
unfolding recall_line copy_line
recall_line-Reads max_len s text v h =
    let buf = patch 0 (text ++ 0 ∷ []) s.buf in
    let room : 0 + length (text ++ 0 ∷ []) ≤ length s.buf =
      omega (arith, length-append text (0 ∷ []), v.buffer, v.limit) in
    let same = length-patch 0 (text ++ 0 ∷ []) s.buf room in
    record {
      outcome =
          reading scancode (record s { buf = buf; pos = strlen text })
            (back s.pos ++ writestring (c_text buf));
      returns = rw (lt→ltb (length text) (length s.buf) (omega (arith, v.buffer, v.limit))) refl;
      valid = record {
        buffer = omega (arith, same, v.buffer);
        limit = v.limit;
        cursor = omega (arith, strlen-le text, v.limit);
        history = v.history;
      };
    }

stays :
    (max_len : ℕ) (at : Read) (s : Line) (out : List Event)
    → IsValid max_len s
    → Reads max_len (some (reading at s out))
stays max_len at s out v = record { outcome = reading at s out; returns = refl; valid = v }

with_history :
    (max_len : ℕ) (s : Line) (h : History)
    → IsValid max_len s
    → Add.IsValid h
    → IsValid max_len (record s { history = h })
with_history max_len s h v w = record {
  buffer = v.buffer;
  limit = v.limit;
  cursor = v.cursor;
  history = w;
}

-- A byte stored at the position, and the line after it.
stored-IsValid :
    (max_len : ℕ) (s : Line) (i c next : ℕ)
    → IsValid max_len s
    → next < max_len
    → IsValid max_len (record s { buf = set s.buf i c; pos = next })
stored-IsValid max_len s i c next v h = record {
  buffer = omega (arith, length-set s.buf i c, v.buffer);
  limit = v.limit;
  cursor = h;
  history = v.history;
}

cleared :
    (max_len : ℕ) (s : Line) (out : List Event)
    → IsValid max_len s
    → Reads max_len
        (set? s.buf 0 0 >>= (λ buf. some (reading scancode (record s { buf = buf; pos = 0 }) out)))
cleared max_len s out v = record {
  outcome = reading scancode (record s { buf = set s.buf 0 0; pos = 0 }) out;
  returns = rw (set?-eq-set s.buf 0 0 (omega (arith, v.buffer, v.limit))) refl;
  valid = stored-IsValid max_len s 0 0 0 v (omega (arith, v.limit));
}

read_arrow-Reads :
    (max_len : ℕ) (s : Line) (key : ℕ) → IsValid max_len s → Reads max_len (read_arrow s key)
unfolding read_arrow
read_arrow-Reads max_len s key v =
    let p = history_prev-Served s.history v.history in
    let n = history_next-Served s.history v.history in
    let before = record s { history = p.history } in
    let after = record s { history = n.history } in
    let before_valid = with_history max_len s p.history v p.valid in
    let after_valid = with_history max_len s n.history v n.valid in
    elim (Bool-cases (key == 0x48)) [
      | inl up ↦ elim (Bool-cases (get_or p.text 0 0 == 0)) [
        | inl empty ↦
            rw (up, p.returns, ◌>>=◌, empty) (stays max_len scancode before [] before_valid)
        | inr found ↦
            rw (up, p.returns, ◌>>=◌, found)
              (recall_line-Reads max_len before p.text before_valid p.fits)
      ]
      | inr other ↦ elim (Bool-cases (key == 0x50)) [
        | inl down ↦ elim (Bool-cases (get_or n.text 0 0 == 0)) [
          | inl empty ↦
              rw (other, down, n.returns, ◌>>=◌, empty)
                (cleared max_len after (back s.pos) after_valid)
          | inr found ↦
              rw (other, down, n.returns, ◌>>=◌, found)
                (recall_line-Reads max_len after n.text after_valid n.fits)
        ]
        | inr neither ↦ rw (other, neither) (stays max_len scancode s [] v)
      ]
    ]

read_ascii-Reads :
    (max_len : ℕ) (s : Line) (c : ℕ) → IsValid max_len s → Reads max_len (read_ascii max_len s c)
unfolding read_ascii
read_ascii-Reads max_len s c v =
    let inside : s.pos < length s.buf = omega (arith, v.buffer, v.cursor) in
    elim (Bool-cases (c == newline)) [
      | inl enter ↦
          rw (enter, set?-eq-set s.buf s.pos 0 inside, ◌>>=◌)
            (record {
              outcome = returned (record s { buf = set s.buf s.pos 0 }) (put newline ∷ []);
              returns = refl;
              valid = stored-IsValid max_len s s.pos 0 s.pos v v.cursor;
            })
      | inr text ↦ elim (Bool-cases ((c == backspace) && ltb 0 s.pos)) [
        | inl erases ↦
            rw (text, erases)
              (stays max_len scancode (record s { pos = s.pos - 1 }) (put backspace ∷ [])
                (record {
                  buffer = v.buffer;
                  limit = v.limit;
                  cursor = omega (arith, v.cursor);
                  history = v.history;
                }))
        | inr kept ↦ elim (Bool-cases (leb 32 c && leb c 126 && ltb s.pos (max_len - 1))) [
          | inl room ↦
              rw (text, kept, room, set?-eq-set s.buf s.pos c inside, ◌>>=◌)
                (stays max_len scancode (record s { buf = set s.buf s.pos c; pos = s.pos + 1 })
                  (put c ∷ []) (stored-IsValid max_len s s.pos c (s.pos + 1) v (ground arith)))
          | inr full ↦ rw (text, kept, full) (stays max_len _ s [] v)
        ]
      ]
    ]

read_byte-Reads :
    (max_len : ℕ) (at : Read) (s : Line) (code : ℕ)
    → IsValid max_len s
    → Reads max_len (read_byte max_len at s code)
unfolding read_byte
read_byte-Reads max_len scancode s code v = elim (Bool-cases (leb 0x80 code)) [
  | inl up ↦ rw up (stays max_len scancode s [] v)
  | inr pressed ↦ rw pressed (read_ascii-Reads max_len s (ascii_of code) v)
]
read_byte-Reads max_len seq_first s code v = stays max_len (seq_second code) s [] v
read_byte-Reads max_len (seq_second first) s code v = stays max_len _ s [] v
read_byte-Reads max_len seq_third s code v = read_arrow-Reads max_len s code v

prefixed :
    (max_len : ℕ) (out : List Event) {call : Option Outcome} (q : Outcome)
    → call ≡ some q
    → IsValid max_len (line q)
    → Reads max_len (call >>= (λ q. some (prefix out q)))
prefixed max_len out (returned s more) e v = record {
  outcome = returned s (out ++ more);
  returns = rw e refl;
  valid = v;
}
prefixed max_len out (reading at s more) e v = record {
  outcome = reading at s (out ++ more);
  returns = rw e refl;
  valid = v;
}

go_on :
    (max_len : ℕ) (out : List Event) (call : Option Outcome)
    → Reads max_len call
    → Reads max_len (call >>= (λ q. some (prefix out q)))
go_on max_len out call r = prefixed max_len out r.outcome r.returns r.valid

then_read :
    (max_len : ℕ) (o : Outcome) (rest : List ℕ)
    → ((at : Read) (s : Line) → IsValid max_len s → Reads max_len (readline_from max_len at s rest))
    → IsValid max_len (line o)
    → Reads max_len (elim o [
      | returned s1 out ↦ some (returned s1 out)
      | reading at1 s1 out ↦ readline_from max_len at1 s1 rest >>= (λ q. some (prefix out q))
    ])
then_read max_len (returned s out) rest later v = record {
  outcome = returned s out;
  returns = refl;
  valid = v;
}
then_read max_len (reading at s out) rest later v =
    go_on max_len out (readline_from max_len at s rest) (later at s v)

-- From a valid line, whatever bytes the port gives: no access leaves the buffer, and after the last
-- byte (or the Enter) the line is valid again.
pub readline_from-Reads :
    (max_len : ℕ) (at : Read) (s : Line) (codes : List ℕ)
    → IsValid max_len s
    → Reads max_len (readline_from max_len at s codes)
unfolding readline_from
readline_from-Reads max_len at s [] v = stays max_len at s [] v
readline_from-Reads max_len at s (code ∷ rest) v =
    let r = read_byte-Reads max_len at s code v in
    rw (r.returns, ◌>>=◌)
      (then_read max_len r.outcome rest (λ at1 s1 w. readline_from-Reads max_len at1 s1 rest w)
        r.valid)
