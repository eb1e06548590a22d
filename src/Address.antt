-- ===== src/Address.antt =====
-- include/co_context/net/inet_address.hpp and lib/co_context/net/inet_address.cpp, `inet_address`.
-- The functions of the system are parameters. Fields of the two address structures that no operation
-- reads are left out; the family and the port lie at the same places in both.
pub mod Laws
mod Tests
use co_context.Prelude.{
  ℕ, zero, suc, ◌≡◌, Option, none, some, Bool, true, false, not, ◌&&◌, ◌==◌, if◌then◌else◌, List,
  [], ◌∷◌, ◌++◌,
}
use co_context.Prelude.Result.{Result, ok, fault, assertion_failed, ◌>>=◌}

-- The families that the code names, and all others.
pub data Family : Type 0 where
  unspec inet inet6 other_family : Family

abbrev pub same_family : Family → Family → Bool
same_family unspec unspec = true
same_family inet inet = true
same_family inet6 inet6 = true
same_family other_family other_family = true
same_family _ _ = false

-- The union of `sockaddr_in` and `sockaddr_in6`; the port is in the order of the network.
pub record InetAddress : Type 0 where
  pub family : Family
  pub sin_port : ℕ
  pub s_addr : ℕ
  pub sin6_addr : ℕ

-- The functions of the system: texts are lists of characters without the NUL at their end.
pub record Net : Type 0 where
  pub htons : ℕ → ℕ
  pub ntohs : ℕ → ℕ
  pub inet_pton : Family → List ℕ → Option ℕ
  pub inet_ntop : Family → ℕ → List ℕ
  pub print_unsigned : ℕ → List ℕ
  pub any_address : Family → ℕ
  pub getaddrinfo : List ℕ → Option (List InetAddress)

-- `std::string_view`: the characters in memory from `data()` on, and `size()`.
pub record StringView : Type 0 where
  pub characters : List ℕ
  pub size : ℕ

-- What a function reads that takes a text up to its NUL.
abbrev pub c_string : List ℕ → List ℕ
c_string [] = []
c_string (c ∷ cs) = if c == 0 then [] else c ∷ c_string cs

-- `find(c) != npos` among the first `size` characters.
abbrev pub finds : ℕ → ℕ → List ℕ → Bool
finds c zero cs = false
finds c (suc n) [] = false
finds c (suc n) (x ∷ cs) = if x == c then true else finds c n cs

abbrev pub colon : ℕ
colon = 58

-- The assertion on the result of `inet_pton`.
abbrev pub parsed : Option ℕ → Result ℕ
parsed none = fault assertion_failed
parsed (some x) = ok x

-- `inet_address(saddr)`
abbrev pub inet_address_sockaddr : InetAddress → Result InetAddress
inet_address_sockaddr saddr =
    if same_family saddr.family inet
    then ok saddr
    else if same_family saddr.family inet6
    then ok saddr
    else fault assertion_failed

-- The last entry, if there is one.
abbrev pub back : List InetAddress → Option InetAddress
back [] = none
back (a ∷ []) = some a
back (a ∷ b ∷ rest) = back (b ∷ rest)

module _ (net : Net) where
  abbrev pub port : InetAddress → ℕ
  port a = net.ntohs a.sin_port

  abbrev pub reset_port : ℕ → InetAddress → InetAddress
  reset_port p a = record a { sin_port = net.htons p }

  -- `inet_address(ip, port)`, in memory that holds `raw`.
  unfoldable pub inet_address_ip :
      (raw : InetAddress) (ip : StringView) (p : ℕ) → Result InetAddress
  inet_address_ip raw ip p =
      let a = reset_port p raw in
      if not (finds colon ip.size ip.characters)
      then (parsed (net.inet_pton inet (c_string ip.characters))
          >>= (λ x. ok (record a { s_addr = x; family = inet })))
      else (parsed (net.inet_pton inet6 (c_string ip.characters))
          >>= (λ x. ok (record a { sin6_addr = x; family = inet6 })))

  -- `inet_address(port, is_ipv6)`
  unfoldable pub inet_address_port : (p : ℕ) (is_ipv6 : Bool) → InetAddress
  inet_address_port p is_ipv6 =
      if is_ipv6
      then record {
        family = inet6;
        sin_port = net.htons p;
        s_addr = 0;
        sin6_addr = net.any_address inet6;
      }
      else record {
        family = inet;
        sin_port = net.htons p;
        s_addr = net.any_address inet;
        sin6_addr = 0;
      }

  unfoldable pub to_ip : InetAddress → List ℕ
  to_ip a =
      if same_family a.family inet
      then net.inet_ntop inet a.s_addr
      else net.inet_ntop inet6 a.sin6_addr

  -- 91 and 93 are the brackets.
  unfoldable pub to_ip_port : InetAddress → List ℕ
  to_ip_port a =
      let buf = colon ∷ net.print_unsigned (port a) in
      if same_family a.family inet6 then (91 ∷ to_ip a) ++ (93 ∷ []) ++ buf else to_ip a ++ buf

  -- `operator==`
  unfoldable pub equals : InetAddress → InetAddress → Bool
  equals a b =
      if not (same_family a.family b.family)
      then false
      else if same_family a.family inet
      then (a.sin_port == b.sin_port) && (a.s_addr == b.s_addr)
      else (a.sin_port == b.sin_port) && (a.sin6_addr == b.sin6_addr)

  -- The loop of `resolve_all`.
  unfoldable pub collect : ℕ → List InetAddress → Result (List InetAddress)
  collect p [] = ok []
  collect p (i ∷ is) =
      inet_address_sockaddr i >>= (λ a. collect p is >>= (λ rest. ok (reset_port p a ∷ rest)))

  -- An error of `getaddrinfo` is printed, and gives no address.
  abbrev pub collected : ℕ → Option (List InetAddress) → Result (List InetAddress)
  collected p none = ok []
  collected p (some result) = collect p result

  unfoldable pub resolve_all : (hostname : StringView) (p : ℕ) → Result (List InetAddress)
  resolve_all hostname p = collected p (net.getaddrinfo (c_string hostname.characters))

  -- Whether there is an address is whether the result is one.
  unfoldable pub resolve : (hostname : StringView) (p : ℕ) → Result (Option InetAddress)
  resolve hostname p = resolve_all hostname p >>= (λ addrs. ok (back addrs))
