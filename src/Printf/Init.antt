-- ===== src/Printf/Init.antt =====
-- What `printf_init` writes.
use larch.Prelude.{◌≡◌, refl, some, map, codes}
use larch.Console.{put}
use larch.Printf.{kprintf, printf_init}

pub printf_init_lem : printf_init ≡ some (map put (codes "[INFO] printf initialized\n"))
unfolding printf_init kprintf
printf_init_lem = refl
