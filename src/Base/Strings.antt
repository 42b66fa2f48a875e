-- ===== src/Base/Strings.antt =====
-- Texts as lists of bytes: `std::string`.
use Prim.Native.Char.{code}
use Prim.Native.Nat.{ℕ, zero, suc}
use Prim.Native.String.{String}
use mathlib.Core.Path.{◌≡◌, refl}
use mathlib.Core.Bool.{Bool, true, false, ◌&&◌, ◌||◌}
use mathlib.Core.Option.{Option, none, some}
use mathlib.Core.List.{List, [], ◌∷◌}
use native.Mathlib.Omega.{arith}
use scarv_cpu.Base.Tests.{◌==◌, if◌then◌else◌}

abbrev pub Text : Type 0
Text = List ℕ

abbrev pub codes : String → Text
codes String.[] = []
codes (String.◌∷◌ c s) = code c ∷ codes s

abbrev pub starts_with : Text → Text → Bool
starts_with [] s = true
starts_with (p ∷ ps) [] = false
starts_with (p ∷ ps) (c ∷ cs) = p == c && starts_with ps cs

-- `s.find(p) != std::string::npos`
abbrev pub contains : Text → Text → Bool
contains p [] = starts_with p []
contains p (c ∷ cs) = starts_with p (c ∷ cs) || contains p cs

-- `s.substr(n)`, which throws behind the end of the text.
abbrev pub substr : Text → ℕ → Option Text
substr s zero = some s
substr [] (suc n) = none
substr (c ∷ cs) (suc n) = substr cs n

abbrev pub eq_text : Text → Text → Bool
eq_text [] [] = true
eq_text (c ∷ cs) (d ∷ ds) = c == d && eq_text cs ds
eq_text _ _ = false

abbrev pub is_empty : Text → Bool
is_empty [] = true
is_empty (c ∷ cs) = false

-- A byte that a text has nowhere.
abbrev pub lacks : ℕ → Text → Bool
lacks b [] = true
lacks b (c ∷ cs) = (if c == b then false else true) && lacks b cs

pub contains-lacks : (b : ℕ) (p s : Text) → lacks b s ≡ true → contains (b ∷ p) s ≡ false
contains-lacks b p [] h = refl
contains-lacks b p (c ∷ cs) h = ground (arith, contains-lacks b p cs)
