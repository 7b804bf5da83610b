-- ===== src/Worker/Host.antt =====
-- The tests that worker/src/index.ts makes on the host of an endpoint. Texts are read character by
-- character in place of the regular expressions; a character beyond ASCII is in none of their classes.
use Prim.Native.Char.{Char, code}
use bpb_action_mesh.Prelude.{
  ℕ, suc, ◌+◌, ◌-◌, ◌*◌, String, Bool, true, false, not, ◌||◌, ◌&&◌, List, ◌∷◌, ◌==◌, leb, ltb, eqb,
  any, every, if◌then◌else◌, map, length, truthy, map_text, split_on,
}
use bpb_action_mesh.Ledger.Schema.{lower_char}

abbrev pub is_digit : Char → Bool
is_digit c = leb 48 (code c) && leb (code c) 57

-- `[a-z0-9]` with the flag `i`.
abbrev pub is_alnum : Char → Bool
is_alnum c =
    is_digit c || (leb 97 (code c) && leb (code c) 122) || (leb 65 (code c) && leb (code c) 90)

unfoldable pub all_chars : (Char → Bool) → String → Bool
all_chars p String.[] = true
all_chars p (String.◌∷◌ c s) = p c && all_chars p s

unfoldable pub any_char : (Char → Bool) → String → Bool
any_char p String.[] = false
any_char p (String.◌∷◌ c s) = p c || any_char p s

unfoldable pub text_length : String → ℕ
text_length String.[] = 0
text_length (String.◌∷◌ c s) = suc (text_length s)

-- `/^\d+$/`
is_number : String → Bool
unfolding all_chars
is_number s = truthy s && all_chars is_digit s

digits_value : ℕ → String → ℕ
digits_value n String.[] = n
digits_value n (String.◌∷◌ c s) = digits_value (10 * n + (code c - 48)) s

-- `Number(part)` on digits.
number_of : String → ℕ
unfolding digits_value
number_of s = digits_value 0 s

-- The first two of four numbers, and that all are at most 255.
private_range : List ℕ → Bool
private_range (a ∷ b ∷ ns) =
    eqb a 0
    || eqb a 10
    || eqb a 127
    || (eqb a 169 && eqb b 254)
    || (eqb a 172 && (leb 16 b && leb b 31))
    || (eqb a 192 && eqb b 168)
    || leb 224 a
private_range _ = false

-- `isPrivateIpv4`
unfoldable pub is_private_ipv4 : String → Bool
unfolding is_number number_of private_range
is_private_ipv4 host =
    let parts = split_on b'.' host in
    if not (eqb (length parts) 4) || any (λ p. not (is_number p)) parts
    then false
    else if any (λ n. ltb 255 n) (map number_of parts)
    then false
    else private_range (map number_of parts)

-- `/^\d+\.\d+\.\d+\.\d+$/`
unfoldable pub is_dotted_quad : String → Bool
unfolding is_number
is_dotted_quad host =
    let parts = split_on b'.' host in eqb (length parts) 4 && every is_number parts

-- The last character passes.
ends_in : (Char → Bool) → String → Bool
ends_in p String.[] = false
ends_in p (String.◌∷◌ c String.[]) = p c
ends_in p (String.◌∷◌ c (String.◌∷◌ d s)) = ends_in p (String.◌∷◌ d s)

begins_in : (Char → Bool) → String → Bool
begins_in p String.[] = false
begins_in p (String.◌∷◌ c s) = p c

-- `[a-z0-9](?:[a-z0-9-]{0,61}[a-z0-9])?`
is_label : String → Bool
unfolding begins_in ends_in all_chars text_length
is_label s =
    begins_in is_alnum s
    && ends_in is_alnum s
    && all_chars (λ c. is_alnum c || eqb (code c) 45) s
    && leb (text_length s) 63

-- The white space of `\s`, within ASCII.
abbrev pub is_white : Char → Bool
is_white c = eqb (code c) 32 || (leb 9 (code c) && leb (code c) 13)

ends_with_localhost : String → Bool
ends_with_localhost String.[] = false
ends_with_localhost (String.◌∷◌ c s) =
    let rest = ends_with_localhost s in String.◌∷◌ c s == ".localhost" || rest

-- `isValidEndpointHost` of a text; the first argument tells whether the ingress is "n2n".
unfoldable pub is_valid_endpoint_host : Bool → String → Bool
unfolding any_char text_length ends_with_localhost is_label number_of
is_valid_endpoint_host n2n host =
    let lower = map_text lower_char host in
    if not (truthy host) || ltb 253 (text_length host)
    then false
    else if any_char (λ c. eqb (code c) 47 || eqb (code c) 58 || is_white c) host
    then false
    else if lower == "localhost" || ends_with_localhost lower
    then false
    else if is_dotted_quad host
    then (if any (λ n. ltb 255 n) (map number_of (split_on b'.' host))
        then false
        else if n2n
        then true
        else not (is_private_ipv4 host))
    else if is_private_ipv4 host
    then false
    else every is_label (split_on b'.' host)
