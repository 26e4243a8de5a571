-- ===== src/Strings.antt =====
-- What the code uses of the package `strings`, on bytes.
use mathlib.Core.Option
use mikrotik_operator.Base.{
  Option, none, some, ℕ, zero, suc, Text, List, [], ◌∷◌, map, length, reverse, has_prefix, ◌==◌,
  nat_eq, list_eq, ◌&&◌, if◌then◌else◌, Bool,
}

-- The characters of `unicode.IsSpace` in UTF-8.
abbrev spaces : List Text
spaces =
    (9 ∷ [])
    ∷ (10 ∷ [])
    ∷ (11 ∷ [])
    ∷ (12 ∷ [])
    ∷ (13 ∷ [])
    ∷ (32 ∷ [])
    ∷ (0xC2 ∷ 0x85 ∷ [])
    ∷ (0xC2 ∷ 0xA0 ∷ [])
    ∷ (0xE1 ∷ 0x9A ∷ 0x80 ∷ [])
    ∷ (0xE2 ∷ 0x80 ∷ 0x80 ∷ [])
    ∷ (0xE2 ∷ 0x80 ∷ 0x81 ∷ [])
    ∷ (0xE2 ∷ 0x80 ∷ 0x82 ∷ [])
    ∷ (0xE2 ∷ 0x80 ∷ 0x83 ∷ [])
    ∷ (0xE2 ∷ 0x80 ∷ 0x84 ∷ [])
    ∷ (0xE2 ∷ 0x80 ∷ 0x85 ∷ [])
    ∷ (0xE2 ∷ 0x80 ∷ 0x86 ∷ [])
    ∷ (0xE2 ∷ 0x80 ∷ 0x87 ∷ [])
    ∷ (0xE2 ∷ 0x80 ∷ 0x88 ∷ [])
    ∷ (0xE2 ∷ 0x80 ∷ 0x89 ∷ [])
    ∷ (0xE2 ∷ 0x80 ∷ 0x8A ∷ [])
    ∷ (0xE2 ∷ 0x80 ∷ 0xA8 ∷ [])
    ∷ (0xE2 ∷ 0x80 ∷ 0xA9 ∷ [])
    ∷ (0xE2 ∷ 0x80 ∷ 0xAF ∷ [])
    ∷ (0xE2 ∷ 0x81 ∷ 0x9F ∷ [])
    ∷ (0xE3 ∷ 0x80 ∷ 0x80 ∷ [])
    ∷ []

-- The length of the first pattern that a text begins with, 0 if there is none.
width : List Text → Text → ℕ
width [] s = 0
width (p ∷ ps) s = if has_prefix s p then length p else width ps s

-- The first argument counts the bytes that are still to be dropped.
trim_left : List Text → ℕ → Text → Text
trim_left ps k [] = []
trim_left ps (suc k) (c ∷ s) = trim_left ps k s
trim_left ps zero (c ∷ s) = elim (width ps (c ∷ s)) [ zero ↦ c ∷ s | suc k ↦ trim_left ps k s ]

trim_right : List Text → Text → Text
trim_right ps s = reverse (trim_left (map reverse ps) zero (reverse s))

-- `strings.TrimSpace`
unfoldable pub trim_space : Text → Text
unfolding width trim_left trim_right has_prefix
trim_space s = trim_right spaces (trim_left spaces zero s)

-- `strings.TrimRight(s, " \t")`
unfoldable pub trim_right_blanks : Text → Text
unfolding width trim_left trim_right has_prefix
trim_right_blanks s = trim_right ((b' ' ∷ []) ∷ (9 ∷ []) ∷ []) s

-- `strings.Trim(s, "/")`
unfoldable pub trim_slashes : Text → Text
unfolding width trim_left trim_right has_prefix
trim_slashes s = trim_right ((b'/' ∷ []) ∷ []) (trim_left ((b'/' ∷ []) ∷ []) zero s)

close_field : Text → List Text → List Text
close_field [] fs = fs
close_field (c ∷ s) fs = reverse (c ∷ s) ∷ fs

-- The field being read is kept in reverse.
fields_from : ℕ → Text → Text → List Text
fields_from k field [] = close_field field []
fields_from (suc k) field (c ∷ s) = fields_from k field s
fields_from zero field (c ∷ s) = elim (width spaces (c ∷ s)) [
  | zero ↦ fields_from zero (c ∷ field) s
  | suc k ↦ close_field field (fields_from k [] s)
]

-- `strings.Fields`
unfoldable pub fields : Text → List Text
unfolding width close_field fields_from has_prefix
fields s = fields_from zero [] s

onto_first : ℕ → List Text → List Text
onto_first c [] = (c ∷ []) ∷ []
onto_first c (p ∷ ps) = (c ∷ p) ∷ ps

-- `strings.Split` with a separator of one byte
unfoldable pub split : ℕ → Text → List Text
unfolding onto_first
split sep [] = [] ∷ []
split sep (c ∷ s) = let rest = split sep s in if c == sep then [] ∷ rest else onto_first c rest

-- `strings.HasSuffix`
unfoldable pub has_suffix : Text → Text → Bool
has_suffix s t = has_prefix (reverse s) (reverse t)

-- `strings.ReplaceAll` of "\r\n" and then of "\r", each by "\n". The first argument says whether
-- the last byte was "\r".
unfoldable pub unify_newlines : Bool → Text → Text
unify_newlines after_return [] = []
unify_newlines after_return (c ∷ s) =
    let rest = unify_newlines (c == 13) s in
    if after_return && c == 10 then rest else (if c == 13 then 10 else c) ∷ rest

drop : ℕ → Text → Text
drop k [] = []
drop zero (c ∷ s) = c ∷ s
drop (suc k) (c ∷ s) = drop k s

-- `strings.TrimPrefix`
unfoldable pub trim_prefix : Text → Text → Text
unfolding drop
trim_prefix s p = if has_prefix s p then drop (length p) s else s

-- `strings.TrimSuffix`
unfoldable pub trim_suffix : Text → Text → Text
trim_suffix s t = reverse (trim_prefix (reverse s) (reverse t))

-- `strings.Cut` at a separator of one byte; `none` if it does not occur.
unfoldable pub cut : ℕ → Text → Option (Text × Text)
cut sep [] = none
cut sep (c ∷ s) =
    let rest = Option.map (λ (a, b). (c ∷ a, b)) (cut sep s) in
    if c == sep then some ([], s) else rest
