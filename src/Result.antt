-- ===== src/Result.antt =====
-- The outcome of a Python operation: a value, or the exception that it raises.
use reliable_broadcast.Prelude.{◌≡◌, refl}

pub data Error : Type 0 where
  overflow_error unicode_decode_error key_error attribute_error system_exit type_error index_error
        file_not_found_error os_error :
      Error

pub data Result {ℓ} (A : Type ℓ) : Type ℓ where
  raise : Error → Result A
  ok : A → Result A

infixl 5 ◌>>=◌
-- The next step of a chain, unless an exception ends it.
abbrev pub ◌>>=◌ {κ ℓ} :
    {Before : Type κ} {After : Type ℓ} → Result Before → (Before → Result After) → Result After
raise e >>= next = raise e
ok value >>= next = next value

-- A chain that returns has returned from its first step, and from the rest with that value.
pub >>=-eq-ok {κ ℓ} :
    {Before : Type κ} {After : Type ℓ} {result : After}
    → (first : Result Before) (next : Before → Result After) → (first >>= next) ≡ ok result
    → (value : Before) × (first ≡ ok value) × (next value ≡ ok result)
>>=-eq-ok (raise e) next h = cc
>>=-eq-ok (ok value) next h = (value, refl, h)

pub ok-injective {ℓ} : {A : Type ℓ} {a b : A} → ok a ≡ ok b → a ≡ b
ok-injective h = cc
