-- ===== src/Cli/Url.antt =====
-- `parse_url` of src/cli/cli.cpp, and `std::stoi` as it uses it.
use gr4_control_plane.Prelude.{
  ℕ, zero, suc, ◌+◌, ◌*◌, ◌-◌, String, ◌<>◌, ◌==◌, string_eq, nat_eq, if◌then◌else◌, ltb, Bool,
  false, not, ◌&&◌, ◌||◌, Option, none, some, ◌≡◌, ◌≢◌, refl, sym, ap, ◌∙◌, arith,
}
use gr4_control_plane.Prelude.Int.{ℤ, pos, negsuc}
use gr4_control_plane.Prelude.Bytes.{strip_prefix, split_last, is_digit}
use gr4_control_plane.Errors.{std_exception, Result, ok, err}
use Prim.Native.Char.{Char, code}
use Prim.Native.String.append

pub record ParsedUrl : Type 0 where
  pub scheme : String
  pub host : String
  pub port : ℤ

-- The digits at the front, behind the value read so far.
unfoldable pub read_digits : ℕ → String → ℕ
read_digits n String.[] = n
read_digits n (String.◌∷◌ c s) =
    let rest = read_digits (10 * n + (code c - 48)) s in if is_digit c then rest else n

abbrev unsigned_value : String → Option ℕ
unsigned_value String.[] = none
unsigned_value (String.◌∷◌ c s) = if is_digit c then some (read_digits 0 (String.◌∷◌ c s)) else none

abbrev in_positive_range : Option ℕ → Option ℤ
in_positive_range none = none
in_positive_range (some n) = if ltb n 2147483648 then some (pos n) else none

abbrev negated : ℕ → ℤ
negated zero = pos 0
negated (suc n) = negsuc n

abbrev in_negative_range : Option ℕ → Option ℤ
in_negative_range none = none
in_negative_range (some n) = if ltb n 2147483649 then some (negated n) else none

abbrev is_space : Char → Bool
is_space c = code c == 32 || (not (ltb (code c) 9) && ltb (code c) 14)

unfoldable pub skip_spaces : String → String
skip_spaces String.[] = ""
skip_spaces (String.◌∷◌ c s) =
    let rest = skip_spaces s in if is_space c then rest else String.◌∷◌ c s

abbrev signed_value : String → Option ℤ
signed_value String.[] = none
signed_value (String.◌∷◌ c s) =
    if code c == 45
    then in_negative_range (unsigned_value s)
    else if code c == 43
    then in_positive_range (unsigned_value s)
    else in_positive_range (unsigned_value (String.◌∷◌ c s))

-- `none` where `std::stoi` throws: no digit at the front, or a value out of the range of `int`.
unfoldable pub stoi : String → Option ℤ
unfolding skip_spaces read_digits
stoi s = signed_value (skip_spaces s)

abbrev with_port : String → Option ℤ → Result ParsedUrl
with_port host none = err (std_exception "server URL port must be numeric")
with_port host (some port) = ok (record { scheme = "http"; host = host; port = port })

abbrev parse_split : Option (String × String) → Result ParsedUrl
parse_split none = err (std_exception "server URL must be in the form http://host:port")
parse_split (some (host, port)) =
    let parsed = with_port host (stoi port) in
    if host == "" || port == ""
    then err (std_exception "server URL must be in the form http://host:port")
    else parsed

abbrev parse_host_port : Option String → Result ParsedUrl
parse_host_port none = err (std_exception "only http:// URLs are supported")
parse_host_port (some host_port) =
    let parsed = parse_split (split_last 58 host_port) in
    if host_port == "" then err (std_exception "server URL must include a host") else parsed

unfoldable pub parse_url : String → Result ParsedUrl
unfolding strip_prefix split_last stoi
parse_url url = parse_host_port (strip_prefix "http://" url)

append-nil : (t : String) → "" <> t ≡ t
append-nil t = append.nil t

append-cons : (c : Char) (s t : String) → String.◌∷◌ c s <> t ≡ String.◌∷◌ c (s <> t)
append-cons c s t = append.cons c s t

strip_prefix-append : (p s : String) → strip_prefix p (p <> s) ≡ some s
unfolding strip_prefix
strip_prefix-append String.[] s = rw (append-nil s) refl
strip_prefix-append (String.◌∷◌ c p) s =
    rw (append-cons c p s) (ground (arith, strip_prefix-append p s))

-- The last colon is found.
split_last-join :
    (host port : String)
    → split_last 58 port ≡ none
    → split_last 58 (host <> (":" <> port)) ≡ some (host, port)
unfolding split_last
split_last-join String.[] port h =
    rw (append-nil (":" <> port), append-cons _ "" port, append-nil port) (ground (arith, h))
split_last-join (String.◌∷◌ c host) port h =
    rw (append-cons c host (":" <> port)) (ground (arith, split_last-join host port h))

not_empty :
    (host port : String)
    → split_last 58 (host <> (":" <> port)) ≡ some (host, port)
    → (host <> (":" <> port) == "") ≡ false
unfolding split_last
not_empty host port h = elim (string_eq.dec (host <> (":" <> port)) "") [
  | no differ ↦ ground (arith, differ)
  | yes same ↦
      let e : split_last 58 "" ≡ some (host, port) = sym (ap (split_last 58) same) ∙ h in
      ground (arith, e)
]

-- An address of a host, which may hold colons, and a port text without one, both not empty, is read
-- as that host and the number that `std::stoi` reads in the port text, and refused if it reads none.
parse_url_lem :
    (host port : String)
    → host ≢ ""
    → port ≢ ""
    → split_last 58 port ≡ none
    → parse_url ("http://" <> (host <> (":" <> port))) ≡ elim (stoi port) [
      | none ↦ err (std_exception "server URL port must be numeric")
      | some number ↦ ok (record { scheme = "http"; host = host; port = number })
    ]
unfolding parse_url
parse_url_lem host port h p c =
    let joined = split_last-join host port c in
    ground (
      arith,
      strip_prefix-append "http://" (host <> (":" <> port)),
      joined,
      not_empty host port joined,
    )
