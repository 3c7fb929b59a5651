-- ===== src/Base/Texts.antt =====
-- Texts as lists of their bytes, and the functions of Go's strings package that the program uses.
-- The texts are ASCII.
use Prim.Native.Nat.{ℕ, zero, suc, ◌+◌, ◌/◌, ◌%◌}
use Prim.Native.Char.{code}
use Prim.Native.String.{String}
use mathlib.Core.Bool.{Bool, true, false, ◌&&◌, ◌||◌}
use mathlib.Core.List.{List, [], ◌∷◌, ◌++◌, reverse, reverse-reverse}
use mathlib.Core.List.Permᴰ
use mathlib.Core.Path.{◌≡◌, refl, ◌∙◌}
use native.Mathlib.Omega.{arith}
use vpn_price_public.Base.Lists.{any, any-perm}
use vpn_price_public.Base.Tests.{◌==◌, leb, if◌then◌else◌}

abbrev pub Text : Type 0
Text = List ℕ

abbrev pub codes : String → Text
codes String.[] = []
codes (String.◌∷◌ c s) = code c ∷ codes s

-- Equality of texts.
abbrev pub text_eq : Text → Text → Bool
text_eq [] [] = true
text_eq (c ∷ s) (d ∷ t) = c == d && text_eq s t
text_eq _ _ = false

pub text_eq_refl : (s : Text) → text_eq s s ≡ true
text_eq_refl [] = refl
text_eq_refl (c ∷ s) = ground (arith, text_eq_refl s)

pub text_eq-eq : (s t : Text) → text_eq s t ≡ true → s ≡ t
text_eq-eq [] [] h = refl
text_eq-eq [] (d ∷ t) h = ground arith
text_eq-eq (c ∷ s) [] h = ground arith
text_eq-eq (c ∷ s) (d ∷ t) h = ground (arith, text_eq-eq s t)

abbrev pub is_empty : Text → Bool
is_empty [] = true
is_empty (_ ∷ _) = false

abbrev pub is_digit : ℕ → Bool
is_digit c = leb b'0' c && leb c b'9'

abbrev pub is_space : ℕ → Bool
is_space c = c == 32 || leb 9 c && leb c 13

pub trim_left : Text → Text
trim_left [] = []
trim_left (c ∷ s) = if is_space c then trim_left s else c ∷ s

-- strings.TrimSpace
unfoldable pub trim_space : Text → Text
unfolding trim_left
trim_space s = reverse (trim_left (reverse (trim_left s)))

abbrev pub cons_first : ℕ → List Text → List Text
cons_first c [] = (c ∷ []) ∷ []
cons_first c (field ∷ fields) = (c ∷ field) ∷ fields

-- strings.Split at a separator of one byte
unfoldable pub split : ℕ → Text → List Text
split sep [] = [] ∷ []
split sep (c ∷ s) = let rest = split sep s in if c == sep then [] ∷ rest else cons_first c rest

-- strings.Join
unfoldable pub join : Text → List Text → Text
join sep [] = []
join sep (s ∷ []) = s
join sep (s ∷ t ∷ rest) = s ++ (sep ++ join sep (t ∷ rest))

trim_left_id : (s : Text) → any is_space s ≡ false → trim_left s ≡ s
unfolding trim_left
trim_left_id [] h = refl
trim_left_id (c ∷ s) h = ground arith

-- A text with no space is its own trimming.
pub trim_space_id : (s : Text) → any is_space s ≡ false → trim_space s ≡ s
unfolding trim_space
trim_space_id s h =
    rw (trim_left_id s h)
      (rw (trim_left_id (reverse s) (any-perm is_space (Permᴰ.reverse s) ∙ h)) (reverse-reverse s))

-- The digits of a number before `text`; a number has fewer digits than it counts.
digits_upto : ℕ → ℕ → Text → Text
digits_upto zero n text = text
digits_upto (suc fuel) n text =
    let more = digits_upto fuel (n / 10) ((b'0' + n % 10) ∷ text) in if n == 0 then text else more

-- strconv.Itoa of a number that is not negative
unfoldable pub decimal : ℕ → Text
unfolding digits_upto
decimal n = if n == 0 then b'0' ∷ [] else digits_upto n n []

-- Equality of texts of type CITEXT.
abbrev pub lower : ℕ → ℕ
lower c = if leb b'A' c && leb c b'Z' then c + 32 else c

abbrev pub citext_eq : Text → Text → Bool
citext_eq [] [] = true
citext_eq (c ∷ s) (d ∷ t) = lower c == lower d && citext_eq s t
citext_eq _ _ = false
