-- ===== src/Prelude/Text.antt =====
-- `std::string` as a list of bytes: the literals and the searches that the program uses.
use Prim.Native.Char.{code}
use Prim.Native.String.{String}
use Prim.Native.Nat.{ℕ, suc, ◌<◌}
use mathlib.Core.Path.{◌≡◌, refl}
use mathlib.Core.Logic.{◌≢◌}
use mathlib.Core.Option
use mathlib.Core.Option.{Option, none, some}
use mathlib.Core.List.{List, [], ◌∷◌, ◌++◌}
use native.Mathlib.Omega.{arith}
use hbackup.Prelude.Tests.{◌==◌, if◌then◌else◌}
use hbackup.Prelude.Lists.{All, length}

abbrev pub Bytes : Type 0
Bytes = List ℕ

-- The bytes of an ASCII literal.
abbrev pub codes : String → Bytes
codes String.[] = []
codes (String.◌∷◌ c s) = code c ∷ codes s

-- Every element fits an unsigned char.
abbrev pub AreBytes : Bytes → Type 0
AreBytes = All (λ c. c < 256)

abbrev pub Lacks : ℕ → Bytes → Type 0
Lacks b = All (λ c. c ≢ b)

-- `s.find(c)`: the position of the first `c`.
unfoldable pub find : ℕ → Bytes → Option ℕ
find c [] = none
find c (x ∷ s) = if x == c then some 0 else Option.map suc (find c s)

-- `s.rfind(c)`: the position of the last `c`.
unfoldable pub rfind : ℕ → Bytes → Option ℕ
rfind c [] = none
rfind c (x ∷ s) = elim (rfind c s) [
  | some n ↦ some (suc n)
  | none ↦ if x == c then some 0 else none
]

pub find_of_Lacks : (c : ℕ) (s : Bytes) → Lacks c s → find c s ≡ none
unfolding find
find_of_Lacks c [] _ = refl
find_of_Lacks c (x ∷ s) (hx, hs) = ground (arith, find_of_Lacks c s hs)

pub find_behind : (c : ℕ) (s t : Bytes) → Lacks c s → find c (s ++ c ∷ t) ≡ some (length s)
unfolding find
find_behind c [] t _ = ground arith
find_behind c (x ∷ s) t (hx, hs) = ground (arith, find_behind c s t hs)

pub find_after : (c : ℕ) (s t : Bytes) → Lacks c s → find c t ≡ none → find c (s ++ t) ≡ none
unfolding find
find_after c [] t _ h = h
find_after c (x ∷ s) t (hx, hs) h = ground (arith, find_after c s t hs h)

pub rfind_of_Lacks : (c : ℕ) (s : Bytes) → Lacks c s → rfind c s ≡ none
unfolding rfind
rfind_of_Lacks c [] _ = refl
rfind_of_Lacks c (x ∷ s) (hx, hs) = ground (arith, rfind_of_Lacks c s hs)

pub rfind_behind : (c : ℕ) (s t : Bytes) → Lacks c t → rfind c (s ++ c ∷ t) ≡ some (length s)
unfolding rfind
rfind_behind c [] t h = ground (arith, rfind_of_Lacks c t h)
rfind_behind c (x ∷ s) t h = ground (arith, rfind_behind c s t h)
