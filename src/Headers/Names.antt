-- ===== src/Headers/Names.antt =====
-- Which bytes are names, and what their normal form is.
use mathlib.Core.List.{append_assoc, append-nil}
use commonlibrary_rust_ylong.Common.{
  ℕ, ◌+◌, ◌<◌, ◌≡◌, ◌↔◌, refl, sym, ap, ◌∙◌, inl, inr, List, [], ◌∷◌, ◌++◌, Bool, true, false,
  Bool-cases, map, leb, ◌&&◌, ◌||◌, ◌==◌, ==_iff, not, if◌then◌else◌, All, arith,
}
use commonlibrary_rust_ylong.Common.Bits.{passes, passes_at}
use commonlibrary_rust_ylong.Common.Result.{ok}
use commonlibrary_rust_ylong.Common.Text.{codes}
use commonlibrary_rust_ylong.Headers.Chars.{header_char}
use commonlibrary_rust_ylong.Headers.{normalize_loop, normalize}

abbrev pub within : ℕ → ℕ → ℕ → Bool
within low high b = leb low b && leb b high

abbrev pub one_of : List ℕ → ℕ → Bool
one_of [] b = false
one_of (c ∷ l) b = b == c || one_of l b

-- RFC 9110, section 5.6.2: letters, digits and some signs.
unfoldable pub is_tchar : ℕ → Bool
is_tchar b =
    within 65 90 b || within 97 122 b || within 48 57 b || one_of (codes "!#$%&'*+-.^_`|~") b

-- These, and a space, a double quote, a comma and a slash.
unfoldable pub is_name_byte : ℕ → Bool
unfolding is_tchar
is_name_byte b = is_tchar b || one_of (codes " \",/") b

-- The lower case of an ASCII letter, and every other byte.
unfoldable pub to_lower : ℕ → ℕ
to_lower b = if within 65 90 b then b + 32 else b

char_agrees : ℕ → Bool
char_agrees b = header_char b == (if is_name_byte b then to_lower b else 0)

chars_agree : passes char_agrees 256 ≡ true
unfolding passes char_agrees header_char is_name_byte to_lower
chars_agree = refl

header_char_lem : (b : ℕ) → b < 256 → header_char b ≡ (if is_name_byte b then to_lower b else 0)
unfolding char_agrees
header_char_lem b h = (==_iff _ _).0 (passes_at char_agrees b 256 h chars_agree)

abbrev pub IsName : List ℕ → Type 0
IsName = All (λ b. is_name_byte b ≡ true)

nonzero : ℕ → Bool
nonzero b = if is_name_byte b then not (header_char b == 0) else true

all_nonzero : passes nonzero 256 ≡ true
unfolding passes nonzero header_char is_name_byte
all_nonzero = refl

-- What the table has for a byte of a name, and for any other.
name_char :
    (b : ℕ)
    → b < 256
    → is_name_byte b ≡ true
    → (header_char b ≡ to_lower b) × ((header_char b == 0) ≡ false)
unfolding nonzero
name_char b h e =
    let lower = header_char_lem b h in
    let z = passes_at nonzero b 256 h all_nonzero in (ground arith, ground arith)

other_char : (b : ℕ) → b < 256 → is_name_byte b ≡ false → (header_char b == 0) ≡ true
other_char b h e = let lower = header_char_lem b h in ground arith

loop_forth :
    (dst input n : List ℕ)
    → All (λ b. b < 256) input
    → normalize_loop dst input ≡ ok n
    → IsName input × (n ≡ dst ++ map to_lower input)
unfolding normalize_loop
loop_forth dst [] n h e = let same : n ≡ dst = cc in (tt, same ∙ sym (append-nil dst))
loop_forth dst (b ∷ input) n (hb, h) e = elim (Bool-cases (is_name_byte b)) [
  | inl good ↦
      let (lower, some_char) = name_char b hb good in
      let (names, whole) =
        loop_forth (dst ++ to_lower b ∷ []) input n h (rw (some_char, lower) at e) in
      ((good, names), whole ∙ append_assoc dst (to_lower b ∷ []) (map to_lower input))
  | inr bad ↦ let none_char = other_char b hb bad in absurd (ground arith)
]

loop_back :
    (dst input : List ℕ)
    → All (λ b. b < 256) input
    → IsName input
    → normalize_loop dst input ≡ ok (dst ++ map to_lower input)
unfolding normalize_loop
loop_back dst [] h names = ap ok (sym (append-nil dst))
loop_back dst (b ∷ input) (hb, h) (good, names) =
    let (lower, some_char) = name_char b hb good in
    rw (some_char, lower)
      (loop_back (dst ++ to_lower b ∷ []) input h names
        ∙ ap ok (append_assoc dst (to_lower b ∷ []) (map to_lower input)))

-- Bytes are a name just when each is a letter, a digit, or another sign of an RFC 9110 token, or else a
-- space, a double quote, a comma or a slash; and its normal form has its letters in lower case.
pub normalize_lem :
    (input n : List ℕ)
    → All (λ b. b < 256) input
    → (normalize input ≡ ok n) ↔ (IsName input × (n ≡ map to_lower input))
unfolding normalize
normalize_lem input n h =
    (loop_forth [] input n h, λ (names, same). loop_back [] input h names ∙ ap ok (sym same))
