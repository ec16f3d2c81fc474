-- ===== src/Huffman/Resume.antt =====
-- Decoding in pieces gives what decoding at once gives.
use Prim.Native.Nat.{bit_and}
use commonlibrary_rust_ylong.Common.{ℕ, ◌/◌, ◌^◌, ◌≡◌, refl, sym, ap, ◌∙◌, List, [], ◌∷◌, ◌++◌}
use commonlibrary_rust_ylong.Common.Result.{Result, ok, err, ◌>>=◌}
use commonlibrary_rust_ylong.Huffman.{
  Progress, half_byte, huffman_decode_inner, huffman_decode, new, decode, finish,
}

>>=-assoc :
    {A B C E : Type 0} (m : Result A E) (f : A → Result B E) (g : B → Result C E)
    → (m >>= f >>= g) ≡ (m >>= λ a. f a >>= g)
>>=-assoc (ok a) f g = refl
>>=-assoc (err e) f g = refl

>>=-cong :
    {A B E : Type 0} (m : Result A E) {f g : A → Result B E}
    → ((a : A) → f a ≡ g a)
    → (m >>= f) ≡ (m >>= g)
>>=-cong (ok a) h = h a
>>=-cong (err e) h = refl

inner-append :
    (xs ys : List ℕ) (p : Progress)
    → huffman_decode_inner (xs ++ ys) p
      ≡ (huffman_decode_inner xs p >>= λ q. huffman_decode_inner ys q)
unfolding huffman_decode_inner
inner-append [] ys p = refl
inner-append (x ∷ xs) ys p =
    >>=-cong (half_byte p (x / 2 ^ 4)) (λ q.
      >>=-cong (half_byte q (bit_and x 0xf)) (λ r. inner-append xs ys r)
      ∙ sym (>>=-assoc (half_byte q (bit_and x 0xf)) _ _))
    ∙ sym (>>=-assoc (half_byte p (x / 2 ^ 4)) _ _)

pub decode-append :
    (p : Progress) (xs ys : List ℕ) → decode p (xs ++ ys) ≡ (decode p xs >>= λ q. decode q ys)
unfolding decode
decode-append p xs ys = inner-append xs ys p

-- However the input is cut in two, `HuffmanDecoder` fed with both parts and finished gives the bytes,
-- or the error, that `huffman_decode` gives for the whole input.
pub decode_pieces :
    (xs ys : List ℕ)
    → (decode new xs >>= λ p. decode p ys >>= finish) ≡ huffman_decode (xs ++ ys) []
unfolding decode finish huffman_decode new
decode_pieces xs ys =
    sym (>>=-assoc (huffman_decode_inner xs _) _ _)
    ∙ ap (λ m. m >>= finish) (sym (inner-append xs ys _))
