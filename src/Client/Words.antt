-- ===== src/Client/Words.antt =====
-- client/tester.py: `string_generator`, the words that the testers send.
pub mod Different
use reliable_broadcast.Prelude.{ℕ, zero, suc, List, [], ◌∷◌, ◌++◌, map, Text, codes}

-- `string.ascii_lowercase`
abbrev pub ascii_lowercase : Text
ascii_lowercase = codes "abcdefghijklmnopqrstuvwxyz"

-- The words behind each letter in turn.
unfoldable pub prefixed : Text → List Text → List Text
prefixed [] words = []
prefixed (letter ∷ letters) words = map (λ word. letter ∷ word) words ++ prefixed letters words

-- `itertools.product(letters, repeat=length)`, joined
unfoldable pub product : Text → ℕ → List Text
unfolding prefixed
product letters zero = [] ∷ []
product letters (suc length) = prefixed letters (product letters length)

-- What the generator has yielded when it is done with the words of this length.
unfoldable pub string_generator : ℕ → List Text
unfolding product
string_generator zero = []
string_generator (suc length) = string_generator length ++ product ascii_lowercase (suc length)
