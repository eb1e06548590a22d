-- ===== src/Address/Tests.antt =====
-- A system that prints an address as one character, after a colon if it is of IPv6, and that reads it
-- after a second colon too.
use co_context.Prelude.{ℕ, ◌+◌, ◌-◌, ◌*◌, ◌/◌, ◌%◌, Option, none, some, List, [], ◌∷◌}
use co_context.Address.{Family, inet, inet6, other_family, InetAddress, Net, colon}

abbrev swap : ℕ → ℕ
swap p = p % 256 * 256 + p / 256 % 256

abbrev read : Family → List ℕ → Option ℕ
read inet6 (c ∷ d ∷ []) = some (d - 100)
read inet6 (c ∷ d ∷ e ∷ []) = some (e - 100)
read inet6 _ = none
read f (c ∷ []) = some (c - 100)
read f _ = none

abbrev print : Family → ℕ → List ℕ
print inet6 x = colon ∷ (x + 100) ∷ []
print f x = (x + 100) ∷ []

abbrev address : InetAddress
address = record { family = inet6; sin_port = 20480; s_addr = 0; sin6_addr = 7 }

abbrev memory : InetAddress
memory = record { family = other_family; sin_port = 1; s_addr = 2; sin6_addr = 3 }

abbrev net : Net
net = record {
  htons = swap;
  ntohs = swap;
  inet_pton = read;
  inet_ntop = print;
  print_unsigned = λ p. p ∷ [];
  any_address = λ f. 0;
  getaddrinfo = λ name. some (address ∷ address ∷ []);
}

-- An address of IPv6 is written with one colon or with two.
data Text : Family → ℕ → List ℕ → Type 0 where
  decimal : (x : ℕ) → Text inet x ((x + 100) ∷ [])
  short : (x : ℕ) → Text inet6 x (colon ∷ (x + 100) ∷ [])
  long : (x : ℕ) → Text inet6 x (colon ∷ colon ∷ (x + 100) ∷ [])
