-- ===== src/Inventory/Names.antt =====
-- The text operations of ops/ansible/ec2.py, over ASCII.
pub mod Safe
use reliable_broadcast.Prelude.{
  ℕ, ◌+◌, Bool, true, false, not, ◌&&◌, ◌||◌, List, [], ◌∷◌, ◌++◌, map, ltb, leb, ◌==◌, nat_eq,
  if◌then◌else◌, Text,
}

unfoldable pub is_upper : ℕ → Bool
is_upper c = leb b'A' c && leb c b'Z'

unfoldable pub is_lower : ℕ → Bool
is_lower c = leb b'a' c && leb c b'z'

unfoldable pub is_digit : ℕ → Bool
is_digit c = leb b'0' c && leb c b'9'

-- The characters that `to_safe` keeps: the regular expression, with a dash if dashes stay.
unfoldable pub is_safe : Bool → ℕ → Bool
unfolding is_upper is_lower is_digit
is_safe replace_dash c =
    is_upper c || is_lower c || is_digit c || c == b'_' || (not replace_dash && c == b'-')

unfoldable pub safe_char : Bool → ℕ → ℕ
unfolding is_safe
safe_char replace_dash c = if is_safe replace_dash c then c else b'_'

-- `replace_dash` is the setting `replace_dash_in_groups`.
unfoldable pub to_safe : Bool → Text → Text
unfolding safe_char
to_safe replace_dash = map (safe_char replace_dash)

unfoldable pub lower_char : ℕ → ℕ
unfolding is_upper
lower_char c = if is_upper c then c + 32 else c

-- `str.lower`
unfoldable pub lower : Text → Text
unfolding lower_char
lower = map lower_char

-- White space, as `str.strip` knows it.
unfoldable pub is_space : ℕ → Bool
is_space c = (leb 9 c && leb c 13) || (leb 28 c && leb c 32)

unfoldable pub strip_left : Text → Text
unfolding is_space
strip_left [] = []
strip_left (c ∷ s) = let rest = strip_left s in if is_space c then rest else c ∷ s

-- A character in front of a text that is stripped on the right.
abbrev keep_right : ℕ → Text → Text
keep_right c [] = if is_space c then [] else c ∷ []
keep_right c (d ∷ s) = c ∷ d ∷ s

unfoldable pub strip_right : Text → Text
unfolding is_space
strip_right [] = []
strip_right (c ∷ s) = keep_right c (strip_right s)

-- `str.strip`
unfoldable pub strip : Text → Text
unfolding strip_left strip_right
strip s = strip_left (strip_right s)

-- One more character in front of the first part.
abbrev onto_first : ℕ → List Text → List Text
onto_first c [] = (c ∷ []) ∷ []
onto_first c (part ∷ parts) = (c ∷ part) ∷ parts

-- `str.split` at a character
unfoldable pub split : ℕ → Text → List Text
split separator [] = [] ∷ []
split separator (c ∷ s) =
    let rest = split separator s in if c == separator then [] ∷ rest else onto_first c rest

-- `','.join`
unfoldable pub join : ℕ → List Text → Text
join separator [] = []
join separator (part ∷ []) = part
join separator (part ∷ part' ∷ parts) = part ++ (separator ∷ join separator (part' ∷ parts))

unfoldable pub starts_with : Text → Text → Bool
starts_with [] s = true
starts_with (c ∷ p) [] = false
starts_with (c ∷ p) (d ∷ s) = c == d && starts_with p s

-- Where the passage that the first substitution of `uncammelize` is copying ends.
pub data Copying : Type 0 where
  nothing capital small : Copying

-- A character that is no line feed, a capital and a small letter.
camel_at : ℕ → Text → Bool
camel_at c (u ∷ l ∷ _) = not (c == 10) && is_upper u && is_lower l
camel_at c _ = false

-- `re.sub('(.)([A-Z][a-z]+)', r'\1_\2', key)`
mark_words : Copying → Text → Text
unfolding camel_at is_upper is_lower
mark_words copying [] = []
mark_words capital (u ∷ s) = u ∷ mark_words small s
mark_words copying (c ∷ s) =
    let more = mark_words small s in
    let found = mark_words capital s in
    let none_here = mark_words nothing s in
    elim copying [
      | small ↦
          if is_lower c then c ∷ more else if camel_at c s then c ∷ b'_' ∷ found else c ∷ none_here
      | _ ↦ if camel_at c s then c ∷ b'_' ∷ found else c ∷ none_here
    ]

begins_capital : Text → Bool
unfolding is_upper
begins_capital [] = false
begins_capital (u ∷ _) = is_upper u

-- `re.sub('([a-z0-9])([A-Z])', r'\1_\2', temp)`
mark_capitals : Text → Text
unfolding begins_capital is_lower is_digit
mark_capitals [] = []
mark_capitals (c ∷ s) =
    let rest = mark_capitals s in
    if (is_lower c || is_digit c) && begins_capital s then c ∷ b'_' ∷ rest else c ∷ rest

unfoldable pub uncammelize : Text → Text
unfolding mark_words mark_capitals lower
uncammelize key = lower (mark_capitals (mark_words nothing key))
