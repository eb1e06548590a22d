-- ===== src/Address/Laws.antt =====
-- Texts and addresses: what is printed is read again as an equal address.
use co_context.Prelude.{
  ℕ, ◌^◌, ◌<◌, ◌≡◌, ◌≢◌, refl, some, true, false, List, [], ◌∷◌, ◌++◌, map, length, All, ◌⊎◌, inl,
  inr,
}
use co_context.Prelude.Result.{ok}
use co_context.Address.{
  Family, inet, inet6, InetAddress, Net, StringView, c_string, finds, colon, port, reset_port,
  inet_address_ip, collect, resolve_all, back, resolve,
}

-- The two orders of the bytes of a port.
pub record IsByteOrder (net : Net) : Type 0 where
  pub ntohs-htons : (p : ℕ) → p < 2 ^ 16 → net.ntohs (net.htons p) ≡ p
  pub htons-ntohs : (p : ℕ) → p < 2 ^ 16 → net.htons (net.ntohs p) ≡ p

-- `Text f x t`: `t` is one of the ways to write the address `x` of the family `f`. In dotted decimals
-- there is no colon, in the notation of IPv6 there is always one, and NUL is in neither.
pub record IsNotation (Text : Family → ℕ → List ℕ → Type 0) : Type 0 where
  pub no_nul : (f : Family) (x : ℕ) (t : List ℕ) → Text f x t → All (λ c. c ≢ 0) t
  pub dotted : (x : ℕ) (t : List ℕ) → Text inet x t → finds colon (length t) t ≡ false
  pub colons : (x : ℕ) (t : List ℕ) → Text inet6 x t → finds colon (length t) t ≡ true

-- `inet_ntop` writes each address of the two families in one of its ways, and `inet_pton` reads all
-- of them. Nothing is asked of other families and of numbers that are no addresses.
pub record IsNet (Text : Family → ℕ → List ℕ → Type 0) (net : Net) : Type 0 where
  pub ntop_inet : (x : ℕ) → x < 2 ^ 32 → Text inet x (net.inet_ntop inet x)
  pub ntop_inet6 : (x : ℕ) → x < 2 ^ 128 → Text inet6 x (net.inet_ntop inet6 x)
  pub pton_inet : (x : ℕ) (t : List ℕ) → Text inet x t → net.inet_pton inet t ≡ some x
  pub pton_inet6 : (x : ℕ) (t : List ℕ) → Text inet6 x t → net.inet_pton inet6 t ≡ some x

-- The view of a string, whose memory ends with a NUL.
abbrev pub view : List ℕ → StringView
view text = record { characters = text ++ 0 ∷ []; size = length text }

-- Of the view of an address only the test for a colon stops at its end: two views that begin at the
-- same place give the same address, however long they are, if both or none hold a colon.
pub inet_address_ip-data :
    (net : Net) (raw : InetAddress) (text : List ℕ) (m n p : ℕ)
    → finds colon m text ≡ finds colon n text
    → inet_address_ip net raw (record { characters = text; size = m }) p
      ≡ inet_address_ip net raw (record { characters = text; size = n }) p
unfolding inet_address_ip
inet_address_ip-data net raw text m n p same = rw same refl

abbrev pub IsAddress : InetAddress → Type 0
IsAddress a =
    (a.sin_port < 2 ^ 16)
    × (((a.family ≡ inet) × (a.s_addr < 2 ^ 32)) ⊎ ((a.family ≡ inet6) × (a.sin6_addr < 2 ^ 128)))

-- One of the ways to write the address, without its port.
abbrev pub IsTextOf : (Text : Family → ℕ → List ℕ → Type 0) (a : InetAddress) (t : List ℕ) → Type 0
IsTextOf Text a t =
    ((a.family ≡ inet) × Text inet a.s_addr t) ⊎ ((a.family ≡ inet6) × Text inet6 a.sin6_addr t)

abbrev pub IsInternet : InetAddress → Type 0
IsInternet a = (a.family ≡ inet) ⊎ (a.family ≡ inet6)

collect_lem :
    (net : Net) (p : ℕ) (l : List InetAddress)
    → All IsInternet l
    → collect net p l ≡ ok (map (reset_port net p) l)
unfolding collect
collect_lem net p [] h = refl
collect_lem net p (a ∷ l) (inl f, h) = rw (f, collect_lem net p l h) refl
collect_lem net p (a ∷ l) (inr f, h) = rw (f, collect_lem net p l h) refl

back-map :
    (f : InetAddress → InetAddress) (l : List InetAddress) (a : InetAddress)
    → back (map f (l ++ a ∷ [])) ≡ some (f a)
back-map f [] a = refl
back-map f (x ∷ []) a = refl
back-map f (x ∷ y ∷ l) a = back-map f (y ∷ l) a

-- Where the system finds addresses of the two families for a name, the name is resolved to the last
-- of them, with the port that was asked for.
pub resolve_lem :
    (net : Net) (hostname : StringView) (p : ℕ) (l : List InetAddress) (a : InetAddress)
    → IsByteOrder net
    → p < 2 ^ 16
    → net.getaddrinfo (c_string hostname.characters) ≡ some (l ++ a ∷ [])
    → All IsInternet (l ++ a ∷ [])
    → (resolve net hostname p ≡ ok (some (reset_port net p a)))
      × (port net (reset_port net p a) ≡ p)
unfolding resolve resolve_all
resolve_lem net hostname p l a laws small found h = (
  rw (found, collect_lem net p (l ++ a ∷ []) h, back-map (reset_port net p) l a) refl,
  laws.ntohs-htons p small,
)
