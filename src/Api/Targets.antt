-- ===== src/Api/Targets.antt =====
-- Paths and their percent-encoding in src/api/http_server.cpp. A `std::string_view` is a list of bytes.
use gr4_control_plane.Prelude.{
  ℕ, ◌+◌, ◌-◌, ◌*◌, ◌/◌, ◌%◌, String, ◌==◌, nat_eq, if◌then◌else◌, ltb, Bool, true, false, not,
  ◌&&◌, ◌||◌, contains, Option, none, some, List, [], ◌∷◌, ◌++◌, length, take, drop,
}
use gr4_control_plane.Errors.{std_exception, Result, ok, err}
use gr4_control_plane.Errors.{then_ok}
use Prim.Native.Char.{code}

-- UTF-8
abbrev pub char_bytes : ℕ → List ℕ
char_bytes n =
    if ltb n 128
    then n ∷ []
    else if ltb n 2048
    then (192 + n / 64) ∷ (128 + n % 64) ∷ []
    else if ltb n 65536
    then (224 + n / 4096) ∷ (128 + n / 64 % 64) ∷ (128 + n % 64) ∷ []
    else (240 + n / 262144) ∷ (128 + n / 4096 % 64) ∷ (128 + n / 64 % 64) ∷ (128 + n % 64) ∷ []

unfoldable pub to_bytes : String → List ℕ
to_bytes String.[] = []
to_bytes (String.◌∷◌ c s) = char_bytes (code c) ++ to_bytes s

unfoldable pub hex_digit : ℕ → Option ℕ
hex_digit c =
    if not (ltb c 48) && ltb c 58
    then some (c - 48)
    else if not (ltb c 65) && ltb c 71
    then some (c - 55)
    else if not (ltb c 97) && ltb c 103
    then some (c - 87)
    else none

abbrev is_space : ℕ → Bool
is_space c = c == 32 || (not (ltb c 9) && ltb c 14)

abbrev digit_or_throw : Option ℕ → Result ℕ
digit_or_throw none = err (std_exception "stoi")
digit_or_throw (some d) = ok d

abbrev second_digit : ℕ → Option ℕ → ℕ
second_digit d none = d
second_digit d (some e) = 16 * d + e

-- `static_cast<char>(std::stoi(hex, nullptr, 16))` on two characters: white space, then a sign, then
-- digits up to the first character that is none.
unfoldable pub byte_of_hex : ℕ → ℕ → Result ℕ
unfolding hex_digit
byte_of_hex a b =
    if is_space a || a == 43
    then digit_or_throw (hex_digit b)
    else if a == 45
    then then_ok (digit_or_throw (hex_digit b)) (λ d. ok ((256 - d) % 256))
    else then_ok (digit_or_throw (hex_digit a)) λ d. ok (second_digit d (hex_digit b))

abbrev plus_as_space : ℕ → ℕ
plus_as_space c = if c == 43 then 32 else c

abbrev push : ℕ → Result (List ℕ) → Result (List ℕ)
push c r = then_ok r λ decoded. ok (c ∷ decoded)

unfoldable pub decode_percent_encoded : List ℕ → Result (List ℕ)
unfolding byte_of_hex
decode_percent_encoded [] = ok []
decode_percent_encoded (c ∷ []) = ok (plus_as_space c ∷ [])
decode_percent_encoded (c ∷ d ∷ []) = ok (plus_as_space c ∷ plus_as_space d ∷ [])
decode_percent_encoded (c ∷ a ∷ b ∷ rest) = elim (c == 37) [
  | true ↦ then_ok (byte_of_hex a b) λ byte. push byte (decode_percent_encoded rest)
  | false ↦ push (plus_as_space c) (decode_percent_encoded (a ∷ b ∷ rest))
]

-- `target.substr(0, target.find('?'))`
unfoldable pub before_query : List ℕ → List ℕ
before_query [] = []
before_query (c ∷ s) = let rest = before_query s in if c == 63 then [] else c ∷ rest

-- `starts_with`, with the rest.
unfoldable pub strip : List ℕ → List ℕ → Option (List ℕ)
strip [] s = some s
strip (c ∷ p) [] = none
strip (c ∷ p) (d ∷ s) = if c == d then strip p s else none

abbrev pub before_found : ℕ → Option (List ℕ × List ℕ) → Option (List ℕ × List ℕ)
before_found c none = none
before_found c (some (before, after)) = some (c ∷ before, after)

abbrev pub at_once_or : Option (List ℕ) → Option (List ℕ × List ℕ) → Option (List ℕ × List ℕ)
at_once_or (some after) later = some ([], after)
at_once_or none later = later

-- What stands before and after the first place of a text, `find`.
unfoldable pub split_at : List ℕ → List ℕ → Option (List ℕ × List ℕ)
unfolding strip
split_at pattern [] = at_once_or (strip pattern []) none
split_at pattern (c ∷ s) = at_once_or (strip pattern (c ∷ s)) (before_found c (split_at pattern s))

abbrev is_all : Option (List ℕ) → Bool
is_all (some []) = true
is_all _ = false

unfoldable pub ends_with : List ℕ → List ℕ → Bool
unfolding strip drop
ends_with suffix s =
    not (ltb (length s) (length suffix))
    && is_all (strip suffix (drop (length s - length suffix) s))

unfoldable pub prefix : List ℕ
unfolding to_bytes
prefix = to_bytes "/sessions/"

unfoldable pub infix_bytes : List ℕ
unfolding to_bytes
infix_bytes = to_bytes "/streams/"

unfoldable pub suffix : List ℕ
unfolding to_bytes
suffix = to_bytes "/ws"

abbrev decoded_target : List ℕ → Result (List ℕ) → Result (Option (List ℕ × List ℕ))
decoded_target session_id stream = then_ok stream λ stream_id. ok (some (session_id, stream_id))

abbrev target_parts : Option (List ℕ × List ℕ) → Result (Option (List ℕ × List ℕ))
target_parts none = ok none
target_parts (some (session_id, after)) =
    if length session_id == 0 || not (ltb (length suffix) (length after)) || contains session_id 47
    then ok none
    else decoded_target session_id
        (decode_percent_encoded (take (length after - length suffix) after))

abbrev after_prefix : Option (List ℕ) → Result (Option (List ℕ × List ℕ))
after_prefix none = ok none
after_prefix (some rest) = target_parts (split_at infix_bytes rest)

unfoldable pub parse_websocket_stream_target : List ℕ → Result (Option (List ℕ × List ℕ))
unfolding decode_percent_encoded before_query strip split_at ends_with prefix infix_bytes suffix
    take
parse_websocket_stream_target target =
    let route = before_query target in
    if not (ends_with suffix route) then ok none else after_prefix (strip prefix route)
