-- ===== src/Api/Routing.antt =====
-- The paths that are shown for websocket streams are routed back to them.
use gr4_control_plane.Prelude.{
  ℕ, ◌+◌, ◌-◌, ◌<◌, String, ◌<>◌, ◌==◌, nat_eq, string_eq, Bool, true, false, not, ◌&&◌, ◌||◌,
  contains, none, some, List, [], ◌∷◌, ◌++◌, length, length-append, take, take-append, drop-append,
  ◌≡◌, refl, sym, ap, ◌∙◌, subst, arith,
}
use mathlib.Core.List.{append_assoc}
use Prim.Native.String.append
use Prim.Native.Char.{code}
use gr4_control_plane.Errors.{ok}
use gr4_control_plane.Domain.Stream.Contract.{make_stream_path}
use gr4_control_plane.Api.Targets.{
  to_bytes, char_bytes, decode_percent_encoded, before_query, strip, split_at, ends_with, prefix,
  infix_bytes, suffix, parse_websocket_stream_target, before_found,
}

-- Bytes that stand for themselves in a path: no percent sign, no plus and no question mark.
unfoldable pub is_plain : List ℕ → Bool
is_plain [] = true
is_plain (c ∷ s) = let rest = is_plain s in not (c == 37 || c == 43 || c == 63) && rest

is_plain-append : (s t : List ℕ) → is_plain (s ++ t) ≡ (is_plain s && is_plain t)
unfolding is_plain
is_plain-append [] t = refl
is_plain-append (c ∷ s) t = ground (arith, is_plain-append s t)

before_query-plain : (s : List ℕ) → is_plain s ≡ true → before_query s ≡ s
unfolding is_plain before_query
before_query-plain [] h = refl
before_query-plain (c ∷ s) h = ground (arith, h, before_query-plain s)

decode-plain : (s : List ℕ) → is_plain s ≡ true → decode_percent_encoded s ≡ ok s
unfolding is_plain decode_percent_encoded
decode-plain [] h = refl
decode-plain (c ∷ []) h = ground (arith, h)
decode-plain (c ∷ d ∷ []) h = ground (arith, h)
decode-plain (c ∷ a ∷ b ∷ rest) h = ground (arith, h, decode-plain (a ∷ b ∷ rest))

strip-append : (p s : List ℕ) → strip p (p ++ s) ≡ some s
unfolding strip
strip-append [] s = refl
strip-append (c ∷ p) s = ground (arith, strip-append p s)

strip_self : (p : List ℕ) → strip p p ≡ some []
unfolding strip
strip_self [] = refl
strip_self (c ∷ p) = ground (arith, strip_self p)

strip-infix_cons : (c : ℕ) (s : List ℕ) → (c == 47) ≡ false → strip infix_bytes (c ∷ s) ≡ none
unfolding strip infix_bytes to_bytes
strip-infix_cons c s h = ground (arith, h)

split_at-infix : (s : List ℕ) → split_at infix_bytes (infix_bytes ++ s) ≡ some ([], s)
unfolding split_at infix_bytes to_bytes strip nat_eq
split_at-infix s = refl

split_at-cons :
    (c : ℕ) (s : List ℕ)
    → (c == 47) ≡ false
    → split_at infix_bytes (c ∷ s) ≡ before_found c (split_at infix_bytes s)
unfolding split_at
split_at-cons c s h = rw (strip-infix_cons c s h) refl

-- A session id has no slash, with which the infix begins.
split_at-append :
    (id s : List ℕ)
    → contains id 47 ≡ false
    → split_at infix_bytes (id ++ (infix_bytes ++ s)) ≡ some (id, s)
split_at-append [] s h = split_at-infix s
split_at-append (c ∷ id) s h =
    split_at-cons c (id ++ (infix_bytes ++ s)) (ground (arith, h))
    ∙ ap (before_found c) (split_at-append id s (ground (arith, h)))

sub_length : (m n : ℕ) → (m + n) - n ≡ m
sub_length m n = omega arith

ends_with-append : (p s : List ℕ) → ends_with p (s ++ p) ≡ true
unfolding ends_with
ends_with-append p s =
    rw (length-append s p, sub_length (length s) (length p), drop-append s p, strip_self p)
      (ground arith)

take-end : (s p : List ℕ) → take (length (s ++ p) - length p) (s ++ p) ≡ s
take-end s p = rw (length-append s p, sub_length (length s) (length p)) (take-append s p)

to_bytes-append : (s t : String) → to_bytes (s <> t) ≡ to_bytes s ++ to_bytes t
unfolding to_bytes
to_bytes-append String.[] t = ap to_bytes (append.nil t)
to_bytes-append (String.◌∷◌ c s) t =
    ap to_bytes (append.cons c s t)
    ∙ ap (λ bs. char_bytes (code c) ++ bs) (to_bytes-append s t)
    ∙ sym (append_assoc (char_bytes (code c)) (to_bytes s) (to_bytes t))

path_bytes :
    (a b c d e : String)
    → to_bytes (a <> b <> c <> d <> e)
      ≡ to_bytes a ++ (to_bytes b ++ (to_bytes c ++ (to_bytes d ++ to_bytes e)))
path_bytes a b c d e =
    rw
      (
        to_bytes-append a (b <> c <> d <> e),
        to_bytes-append b (c <> d <> e),
        to_bytes-append c (d <> e),
        to_bytes-append d e,
      )
      refl

websocket_path :
    (session_id stream_id : String)
    → to_bytes (make_stream_path session_id stream_id "websocket")
      ≡ prefix ++ (to_bytes session_id ++ (infix_bytes ++ (to_bytes stream_id ++ suffix)))
unfolding make_stream_path prefix infix_bytes suffix string_eq
websocket_path session_id stream_id = path_bytes "/sessions/" session_id "/streams/" stream_id "/ws"

route_ends : (u v x y z : List ℕ) → ends_with z (u ++ (v ++ (x ++ (y ++ z)))) ≡ true
route_ends u v x y z =
    subst (λ s. ends_with z s ≡ true)
      (append_assoc u (v ++ (x ++ y)) z
        ∙ ap (λ s. u ++ s) (append_assoc v (x ++ y) z ∙ ap (λ s. v ++ s) (append_assoc x y z)))
      (ends_with-append z (u ++ (v ++ (x ++ y))))

route-plain :
    (s t : List ℕ)
    → is_plain s ≡ true
    → is_plain t ≡ true
    → is_plain (prefix ++ (s ++ (infix_bytes ++ (t ++ suffix)))) ≡ true
unfolding is_plain prefix infix_bytes suffix to_bytes nat_eq
route-plain s t h k =
    rw (is_plain-append s (infix_bytes ++ (t ++ suffix)), h, is_plain-append t suffix, k) refl

-- A websocket client that opens the path that is shown for a stream is sent to that stream of that
-- session, if both ids are not empty and hold no '%', '+' or '?', and the session's no '/'.
pub parse_websocket_stream_target-make_stream_path :
    (session_id stream_id : String)
    → 0 < length (to_bytes session_id)
    → is_plain (to_bytes session_id) ≡ true
    → contains (to_bytes session_id) 47 ≡ false
    → 0 < length (to_bytes stream_id)
    → is_plain (to_bytes stream_id) ≡ true
    → parse_websocket_stream_target (to_bytes (make_stream_path session_id stream_id "websocket"))
      ≡ ok (some (to_bytes session_id, to_bytes stream_id))
unfolding parse_websocket_stream_target
parse_websocket_stream_target-make_stream_path session_id stream_id n h k m l =
    rw
      (
        websocket_path session_id stream_id,
        before_query-plain _ (route-plain (to_bytes session_id) (to_bytes stream_id) h l),
        route_ends prefix (to_bytes session_id) infix_bytes (to_bytes stream_id) suffix,
        strip-append prefix
            (to_bytes session_id ++ (infix_bytes ++ (to_bytes stream_id ++ suffix))),
        split_at-append (to_bytes session_id) (to_bytes stream_id ++ suffix) k,
        k,
        take-end (to_bytes stream_id) suffix,
        decode-plain (to_bytes stream_id) l,
        length-append (to_bytes stream_id) suffix,
      )
      (ground (arith, n, m))
