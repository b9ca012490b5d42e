-- ===== src/Base/Strings.antt =====
-- What the program uses of Go's package strings, on native texts.
use Prim.Native.Nat.{◌+◌}
use Prim.Native.String.{String, ◌++◌, count}
use mathlib.Core.Path.{◌≡◌}
use mathlib.Core.Logic.{◌≢◌}
use mathlib.Core.Bool.{Bool, true, false}
use mathlib.Core.Option.{none, some}
use text.Mathlib.Text.{find?}
use text.Mathlib.TextLemmas.{append-eq-nil_iff, length-append}

-- `strings.Contains`
abbrev pub contains : String → String → Bool
contains s part = elim (find? s part) [ none ↦ false | some i ↦ true ]

-- `s + t`
abbrev pub str_append : String → String → String
str_append s t = s ++ t

pub str_append-nonempty : (s t : String) → s ≢ "" → str_append s t ≢ ""
str_append-nonempty s t h e = h (((append-eq-nil_iff {p = s}).0 e).0)

pub count-str_append : (s t : String) → count (str_append s t) ≡ count s + count t
count-str_append s t = length-append s t
