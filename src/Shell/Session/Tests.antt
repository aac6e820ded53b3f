-- ===== src/Shell/Session/Tests.antt =====
-- `cat bin/hello` at a fresh shell on the screen after the start.
use larch.Prelude.{ℕ, ◌≢◌, ap, List, get_or, refl, [], ◌∷◌, ◌++◌, map, arith, codes, newline}
use larch.Console.{put}
use larch.Fs.Initramfs.Service.{initramfs}
use larch.Drivers.Vga.Tests.{boot_screen, boot_screen-IsValid}
use larch.Shell.Cat.Tests.{hello, one_file, one_file-IsValid}
use larch.Shell.Process.{Env}
use larch.Shell.Commands.{cmd_ls}
use larch.Shell.Process.Tests.{
  ls_line, ls_line-AllPrintable, ls_line-words, ls_line-execute, machine, fresh_shell,
  fresh_shell-IsValid,
}
use larch.Shell.Session.{Waits, CommandShown, run_keys-command}
use larch.Shell.Session.Unknown.{NoneOf, names, complaint, run_keys-unknown}
use larch.Shell.Session.Cat.{cat_line, run_keys-cat}

abbrev booted : Env
booted = record machine { sys = initramfs one_file }

waiting : Waits fresh_shell boot_screen
waiting = record {
  shell = fresh_shell-IsValid;
  plain = refl;
  empty = refl;
  screen = boot_screen-IsValid;
}

run_keys-cat_example :
    CommandShown booted fresh_shell boot_screen
      (cat_line (codes "bin/hello"))
      (put newline ∷ (map put (codes "hello") ++ (put newline ∷ [])))
run_keys-cat_example = run_keys-cat booted fresh_shell boot_screen one_file 0 hello (record {
  waits = waiting;
  system = refl;
  array = refl;
  fuel = omega arith;
  table = one_file-IsValid;
  counted = omega arith;
  at = refl;
  first = λ j g lt. absurd (omega arith);
  exact = refl;
  small = omega arith;
  named = omega arith;
  word = ground arith;
  short = omega arith;
})

-- Texts with different characters at some place.
differ : (i : ℕ) (s t : List ℕ) → get_or s i 0 ≢ get_or t i 0 → s ≢ t
differ i s t h e = h (ap (λ l. get_or l i 0) e)

bare_cat-NoneOf : NoneOf names (codes "cat")
bare_cat-NoneOf = (
  differ 1 (codes "cat") (codes "help") (omega arith),
  (
    differ 1 (codes "cat") (codes "clear") (omega arith),
    (
      differ 1 (codes "cat") (codes "reboot") (omega arith),
      (
        differ 1 (codes "cat") (codes "ls") (omega arith),
        (
          differ 1 (codes "cat") (codes "echo") (omega arith),
          (
            differ 1 (codes "cat") (codes "mem") (omega arith),
            (
              differ 1 (codes "cat") (codes "uptime") (omega arith),
              (
                differ 1 (codes "cat") (codes "uname") (omega arith),
                (
                  differ 0 (codes "cat") (codes "date") (omega arith),
                  (differ 1 (codes "cat") (codes "top") (omega arith), tt),
                ),
              ),
            ),
          ),
        ),
      ),
    ),
  ),
)

-- `cat` without a file.
run_keys-unknown_example :
    CommandShown booted fresh_shell boot_screen (codes "cat") (complaint (codes "cat"))
run_keys-unknown_example =
    run_keys-unknown booted fresh_shell boot_screen (codes "cat") waiting (ground arith)
      (omega arith) (omega arith) bare_cat-NoneOf

run_keys-command_example : CommandShown machine fresh_shell boot_screen ls_line cmd_ls
run_keys-command_example =
    run_keys-command machine fresh_shell boot_screen ls_line ls_line [] cmd_ls waiting
      ls_line-AllPrintable (omega arith) ls_line-words (omega arith) ls_line-execute
