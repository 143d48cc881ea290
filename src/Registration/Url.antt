-- ===== src/Registration/Url.antt =====
-- src/registration.rs: `url_encode_path_segment`, on the bytes of the text.
use h2hc_linker.Base.{
  ℕ, ◌+◌, ◌-◌, ◌*◌, ◌/◌, ◌%◌, ◌<◌, ◌≡◌, refl, Bool, true, ◌&&◌, ◌||◌, List, [], ◌∷◌, ◌++◌, Option,
  none, some, ltb, leb, nat_beq, if◌then◌else◌, arith, Bool-cases, inl, inr, ap, ◌∙◌,
}

abbrev pub is_unreserved : ℕ → Bool
is_unreserved byte =
    (leb b'A' byte && leb byte b'Z')
    || (leb b'a' byte && leb byte b'z')
    || (leb b'0' byte && leb byte b'9')
    || nat_beq byte b'-'
    || nat_beq byte b'.'
    || nat_beq byte b'_'
    || nat_beq byte b'~'

-- A digit of `{:02X}`.
abbrev pub hex_digit : ℕ → ℕ
hex_digit n = if ltb n 10 then b'0' + n else b'A' + (n - 10)

unfoldable pub encoded_byte : ℕ → List ℕ
encoded_byte byte =
    if is_unreserved byte
    then byte ∷ []
    else b'%' ∷ hex_digit (byte / 16) ∷ hex_digit (byte % 16) ∷ []

unfoldable pub url_encode_path_segment : List ℕ → List ℕ
url_encode_path_segment [] = []
url_encode_path_segment (byte ∷ bytes) = encoded_byte byte ++ url_encode_path_segment bytes

-- The number of a digit, as RFC 3986 reads it.
abbrev digit_value : ℕ → Option ℕ
digit_value c =
    if leb b'0' c && leb c b'9'
    then some (c - b'0')
    else (if leb b'A' c && leb c b'F'
        then some (c - b'A' + 10)
        else (if leb b'a' c && leb c b'f' then some (c - b'a' + 10) else none))

abbrev joined : Option ℕ → Option ℕ → Option (List ℕ) → Option (List ℕ)
joined (some high) (some low) (some rest) = some ((high * 16 + low) ∷ rest)
joined _ _ _ = none

abbrev kept : ℕ → Option (List ℕ) → Option (List ℕ)
kept c none = none
kept c (some rest) = some (c ∷ rest)

-- Percent-decoding.
unfoldable pub url_decode : List ℕ → Option (List ℕ)
url_decode [] = some []
url_decode (c ∷ []) = if nat_beq c b'%' then none else some (c ∷ [])
url_decode (c ∷ d ∷ []) =
    let rest = url_decode (d ∷ []) in if nat_beq c b'%' then none else kept c rest
url_decode (c ∷ d ∷ e ∷ text) =
    let escaped = joined (digit_value d) (digit_value e) (url_decode text) in
    let plain = kept c (url_decode (d ∷ e ∷ text)) in if nat_beq c b'%' then escaped else plain

digit_value-hex_digit : (n : ℕ) → n < 16 → digit_value (hex_digit n) ≡ some n
digit_value-hex_digit n h = ground arith

url_decode-plain :
    (c : ℕ) (text : List ℕ)
    → is_unreserved c ≡ true
    → url_decode (c ∷ text) ≡ kept c (url_decode text)
unfolding url_decode
url_decode-plain c [] h = ground arith
url_decode-plain c (d ∷ []) h = ground arith
url_decode-plain c (d ∷ e ∷ text) h = ground arith

-- A byte of Rust.
abbrev pub Bytes : List ℕ → Type 0
Bytes [] = Unit
Bytes (byte ∷ bytes) = (byte < 256) × Bytes bytes

div_mod : (byte : ℕ) → byte / 16 * 16 + byte % 16 ≡ byte
div_mod byte = omega arith

-- Percent-decoding gives the bytes back that `url_encode_path_segment` has encoded, so that two
-- public keys never share a URL.
pub url_decode-url_encode :
    (bytes : List ℕ) → Bytes bytes → url_decode (url_encode_path_segment bytes) ≡ some bytes
unfolding url_decode url_encode_path_segment encoded_byte
url_decode-url_encode [] h = refl
url_decode-url_encode (byte ∷ bytes) h =
    let rest = url_decode-url_encode bytes h.1 in
    elim (Bool-cases (is_unreserved byte)) [
      | inl e ↦ rw e (url_decode-plain byte (url_encode_path_segment bytes) e ∙ ap (kept byte) rest)
      | inr e ↦
          rw
            (
              e,
              digit_value-hex_digit (byte / 16) (omega arith),
              digit_value-hex_digit (byte % 16) (omega arith),
              rest,
            )
            (ap (λ b. some (b ∷ bytes)) (div_mod byte))
    ]

-- What may stand in a path segment: unreserved characters and `%`.
abbrev pub InSegment : List ℕ → Type 0
InSegment [] = Unit
InSegment (c ∷ text) = ((is_unreserved c || nat_beq c b'%') ≡ true) × InSegment text

hex_digit-unreserved : (n : ℕ) → n < 16 → is_unreserved (hex_digit n) ≡ true
hex_digit-unreserved n h = ground arith

pub url_encode-InSegment :
    (bytes : List ℕ) → Bytes bytes → InSegment (url_encode_path_segment bytes)
unfolding url_encode_path_segment encoded_byte
url_encode-InSegment [] h = tt
url_encode-InSegment (byte ∷ bytes) h =
    let rest = url_encode-InSegment bytes h.1 in
    elim (Bool-cases (is_unreserved byte)) [
      | inl e ↦ rw e (ground (arith, e), rest)
      | inr e ↦
          rw
            (
              e,
              hex_digit-unreserved (byte / 16) (omega arith),
              hex_digit-unreserved (byte % 16) (omega arith),
            )
            (refl, (refl, (refl, rest)))
    ]
