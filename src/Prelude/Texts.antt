-- ===== src/Prelude/Texts.antt =====
-- The length of a text as Go counts it: the bytes of its UTF-8 form.
use Prim.Native.String.{String}
use Prim.Native.Char.{Char, code}
use Prim.Native.Nat.{ℕ, ◌+◌}
use mathlib.Core.Path.{◌≡◌, refl}
use semmachina.Prelude.Tests.{ltb, if◌then◌else◌}

abbrev width : Char → ℕ
width c =
    if ltb (code c) 0x80
    then 1
    else if ltb (code c) 0x800
    then 2
    else if ltb (code c) 0x10000
    then 3
    else 4

abbrev pub len : String → ℕ
len String.[] = 0
len (String.◌∷◌ c s) = width c + len s

accents : len "naïve" ≡ 6
accents = refl
