-- ===== src/Prelude/Text.antt =====
-- Texts as the lists of their characters, where the program looks into them.
use Prim.Native.Char.{code}
use Prim.Native.String.{String}
use abundance_protocol.Prelude.{
  ℕ, ◌+◌, Bool, true, false, ◌&&◌, ◌≡◌, List, [], ◌∷◌, leb, ◌==◌, if◌then◌else◌, arith, refl,
}

-- The characters of a text literal.
abbrev pub codes : String → List ℕ
codes String.[] = []
codes (String.◌∷◌ c s) = code c ∷ codes s

infix 50 ◌===◌
abbrev pub ◌===◌ : List ℕ → List ℕ → Bool
[] === [] = true
[] === (d ∷ ds) = false
(c ∷ cs) === [] = false
(c ∷ cs) === (d ∷ ds) = c == d && cs === ds

-- toLowerCase, on the letters of ASCII
unfoldable pub lower : List ℕ → List ℕ
lower [] = []
lower (c ∷ cs) = (if leb b'A' c && leb c b'Z' then c + 32 else c) ∷ lower cs

pub ===_eq : (cs ds : List ℕ) → (cs === ds) ≡ true → cs ≡ ds
===_eq [] [] h = refl
===_eq [] (d ∷ ds) h = cc
===_eq (c ∷ cs) [] h = cc
===_eq (c ∷ cs) (d ∷ ds) h = ground (arith, ===_eq cs ds)

pub ===_self : (cs : List ℕ) → (cs === cs) ≡ true
===_self [] = refl
===_self (c ∷ cs) = ground (arith, ===_self cs)
