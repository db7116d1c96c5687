-- ===== src/Text.antt =====
-- What the validators use of Go's strings, bytes and unicode/utf8 packages: TrimSpace and Valid, on the
-- bytes of a string.
use scopecache.Prelude.{
  ℕ, zero, suc, ◌-◌, Bool, true, false, leb, ◌==◌, ◌&&◌, ◌||◌, if◌then◌else◌, [], ◌∷◌,
}
use scopecache.Item.{Bytes}

unfoldable pub between : ℕ → ℕ → ℕ → Bool
between lo hi c = leb lo c && leb c hi

-- The white space of Unicode that one, two or three bytes encode.
unfoldable pub is_space_1 : ℕ → Bool
unfolding between
is_space_1 a = a == 0x20 || between 0x09 0x0d a

unfoldable pub is_space_2 : ℕ → ℕ → Bool
is_space_2 a b = a == 0xc2 && (b == 0x85 || b == 0xa0)

unfoldable pub is_space_3 : ℕ → ℕ → ℕ → Bool
unfolding between
is_space_3 a b c =
    (a == 0xe1 && b == 0x9a && c == 0x80)
    || (a == 0xe2 && b == 0x80 && (between 0x80 0x8a c || c == 0xa8 || c == 0xa9 || c == 0xaf))
    || (a == 0xe2 && b == 0x81 && c == 0x9f)
    || (a == 0xe3 && b == 0x80 && c == 0x80)

-- The bytes of the white space that the text starts with, 0 without any.
unfoldable pub leading_space : Bytes → ℕ
unfolding is_space_1 is_space_2 is_space_3
leading_space [] = 0
leading_space (a ∷ []) = if is_space_1 a then 1 else 0
leading_space (a ∷ b ∷ []) = if is_space_1 a then 1 else if is_space_2 a b then 2 else 0
leading_space (a ∷ b ∷ c ∷ rest) =
    if is_space_1 a then 1 else if is_space_2 a b then 2 else if is_space_3 a b c then 3 else 0

-- The same of a text that is read from its end.
unfoldable pub trailing_space : Bytes → ℕ
unfolding is_space_1 is_space_2 is_space_3
trailing_space [] = 0
trailing_space (a ∷ []) = if is_space_1 a then 1 else 0
trailing_space (a ∷ b ∷ []) = if is_space_1 a then 1 else if is_space_2 b a then 2 else 0
trailing_space (a ∷ b ∷ c ∷ rest) =
    if is_space_1 a then 1 else if is_space_2 b a then 2 else if is_space_3 c b a then 3 else 0

-- Drops runs of white space, measured by `width`; `skip` bytes of the last one are still to go.
unfoldable pub trim_with : (Bytes → ℕ) → ℕ → Bytes → Bytes
trim_with width skip [] = []
trim_with width (suc skip) (c ∷ cs) = trim_with width skip cs
trim_with width zero (c ∷ cs) =
    let n = width (c ∷ cs) in
    let rest = trim_with width (n - 1) cs in if n == 0 then c ∷ cs else rest

unfoldable pub backwards : Bytes → Bytes → Bytes
backwards [] done = done
backwards (c ∷ cs) done = backwards cs (c ∷ done)

-- `strings.TrimSpace`, `bytes.TrimSpace`
unfoldable pub trim_space : Bytes → Bytes
unfolding leading_space trailing_space trim_with backwards
trim_space text =
    let front = trim_with leading_space 0 text in
    backwards (trim_with trailing_space 0 (backwards front [])) []

-- The bytes that must follow a lead byte, and the range of the first of them.
pub record Lead : Type 0 where
  pub legal : Bool
  pub follow : ℕ
  pub lo : ℕ
  pub hi : ℕ

unfoldable pub plain : ℕ → Lead
plain n = record { legal = true; follow = n; lo = 0x80; hi = 0xbf }

unfoldable pub lead_of : ℕ → Lead
unfolding between plain
lead_of c =
    if leb c 0x7f
    then plain 0
    else if between 0xc2 0xdf c
    then plain 1
    else if c == 0xe0
    then record { legal = true; follow = 2; lo = 0xa0; hi = 0xbf }
    else if c == 0xed
    then record { legal = true; follow = 2; lo = 0x80; hi = 0x9f }
    else if between 0xe1 0xef c
    then plain 2
    else if c == 0xf0
    then record { legal = true; follow = 3; lo = 0x90; hi = 0xbf }
    else if between 0xf1 0xf3 c
    then plain 3
    else if c == 0xf4
    then record { legal = true; follow = 3; lo = 0x80; hi = 0x8f }
    else record { legal = false; follow = 0; lo = 0; hi = 0 }

unfoldable pub utf8_from : ℕ → ℕ → ℕ → Bytes → Bool
unfolding lead_of between
utf8_from zero lo hi [] = true
utf8_from (suc n) lo hi [] = false
utf8_from (suc n) lo hi (c ∷ cs) = let rest = utf8_from n 0x80 0xbf cs in between lo hi c && rest
utf8_from zero lo hi (c ∷ cs) =
    let l = lead_of c in let rest = utf8_from l.follow l.lo l.hi cs in l.legal && rest

-- `utf8.Valid`, `utf8.ValidString`
unfoldable pub valid_utf8 : Bytes → Bool
unfolding utf8_from
valid_utf8 text = utf8_from 0 0 0 text
