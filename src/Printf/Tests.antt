-- ===== src/Printf/Tests.antt =====
-- The theorems of `kprintf` on a message with every kind of directive.
use larch.Prelude.{◌≡◌, some, List, [], ◌∷◌, map, arith, codes}
use larch.Console.{put}
use larch.Printf.{kprintf}
use larch.Printf.Format.{
  Piece, plain, str, dec, hex, chr, percent, other, AllGood, format, all_arguments, all_shown,
  kprintf-format,
}

abbrev message : List Piece
message =
    str (codes "cpu")
    ∷ plain b' '
    ∷ dec 4_294_967_295
    ∷ hex 0xDEADBEEF
    ∷ chr 0x141
    ∷ percent
    ∷ other b'q'
    ∷ []

message-AllGood : AllGood message
message-AllGood = ground arith

kprintf-format_example :
    kprintf (format message) (all_arguments message) ≡ some (map put (all_shown message))
kprintf-format_example = kprintf-format message message-AllGood
