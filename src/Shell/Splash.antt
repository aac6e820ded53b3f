-- ===== src/Shell/Splash.antt =====
-- kernel/shell/colored_shell.c: the picture at the start. The loop behind it only waits.
use larch.Prelude.{ℕ, List, [], ◌∷◌, ◌++◌, codes}
use larch.Console.{Event, color, writestring}

abbrev pub boot_splash : List ℕ
boot_splash =
    codes "\n"
    ++ codes "  _               _     \n"
    ++ codes " | |             | |    \n"
    ++ codes " | |     __ _ ___| |__  \n"
    ++ codes " | |    / _` / __| '_ \\ \n"
    ++ codes " | |___| (_| \\__ \\ | | |\n"
    ++ codes " |______\\__,_|___/_| |_|\n"
    ++ codes "                         \n"
    ++ codes "  Larch OS v1.0\n"
    ++ codes "  The flexible operating system\n"
    ++ codes "\n"

pub show_boot_splash : List Event
show_boot_splash = color 0x0A 0x00 ∷ writestring boot_splash ++ color 0x0F 0x00 ∷ []
