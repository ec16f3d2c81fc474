-- ===== src/Message/Method.antt =====
-- The methods of ylong_http/src/request/method.rs.
use commonlibrary_rust_ylong.Common.{
  ℕ, Bool, true, false, ◌≡◌, ◌↔◌, ◌⊎◌, refl, arith, ◌&&◌, ◌||◌, List, [], ◌∷◌, length, ltb, ◌==◌,
  if◌then◌else◌,
}
use commonlibrary_rust_ylong.Common.Result.{Result, ok, err}
use commonlibrary_rust_ylong.Common.Text.{codes, bytes_eq, bytes_eq_iff}
use commonlibrary_rust_ylong.Headers.{InvalidInput, invalid_input}

pub data Method : Type 0 where
  get head post put delete connect options trace : Method

-- The arm of 'P': the second byte is there, since the length has been tested.
p_method : List ℕ → Result Method InvalidInput
p_method [] = err invalid_input
p_method (b ∷ rest) =
    if b == 85 && bytes_eq rest (codes "T")
    then ok put
    else if b == 79 && bytes_eq rest (codes "ST")
    then ok post
    else err invalid_input

p_method_text :
    (l : List ℕ) (m : Method)
    → p_method l ≡ ok m
    → ((m ≡ put) × (l ≡ codes "UT")) ⊎ ((m ≡ post) × (l ≡ codes "OST"))
unfolding p_method
p_method_text [] m h = ground arith
p_method_text (b ∷ l) m h = ground (arith, bytes_eq_iff l (codes "T"), bytes_eq_iff l (codes "ST"))

-- The match on the first byte, which is there, since the length has been tested.
method_of : List ℕ → Result Method InvalidInput
unfolding p_method
method_of [] = err invalid_input
method_of (b ∷ rest) =
    if b == 71 && bytes_eq rest (codes "ET")
    then ok get
    else if b == 80
    then p_method rest
    else if b == 72 && bytes_eq rest (codes "EAD")
    then ok head
    else if b == 84 && bytes_eq rest (codes "RACE")
    then ok trace
    else if b == 68 && bytes_eq rest (codes "ELETE")
    then ok delete
    else if b == 79 && bytes_eq rest (codes "PTIONS")
    then ok options
    else if b == 67 && bytes_eq rest (codes "ONNECT")
    then ok connect
    else err invalid_input

unfoldable pub from_bytes : List ℕ → Result Method InvalidInput
unfolding method_of
from_bytes bytes =
    if ltb (length bytes) 3 || ltb 7 (length bytes) then err invalid_input else method_of bytes

pub as_str : Method → List ℕ
as_str get = codes "GET"
as_str head = codes "HEAD"
as_str post = codes "POST"
as_str put = codes "PUT"
as_str delete = codes "DELETE"
as_str options = codes "OPTIONS"
as_str trace = codes "TRACE"
as_str connect = codes "CONNECT"

method_of_text : (b : ℕ) (l : List ℕ) (m : Method) → method_of (b ∷ l) ≡ ok m → b ∷ l ≡ as_str m
unfolding method_of as_str
method_of_text b l get h = ground (arith, bytes_eq_iff l (codes "ET"))
method_of_text b l head h = ground (arith, bytes_eq_iff l (codes "EAD"))
method_of_text b l post h = ground (arith, p_method_text l post)
method_of_text b l put h = ground (arith, p_method_text l put)
method_of_text b l delete h = ground (arith, bytes_eq_iff l (codes "ELETE"))
method_of_text b l connect h = ground (arith, bytes_eq_iff l (codes "ONNECT"))
method_of_text b l options h = ground (arith, bytes_eq_iff l (codes "PTIONS"))
method_of_text b l trace h = ground (arith, bytes_eq_iff l (codes "RACE"))

-- What a test lets through does not fail it.
else_ok :
    (b : Bool) {r : Result Method InvalidInput} {m : Method}
    → (if b then err invalid_input else r) ≡ ok m
    → r ≡ ok m
else_ok true h = ground arith
else_ok false h = h

-- Bytes are read as a method just when they are its text: no other spelling and no prefix is read.
pub from_bytes-as_str :
    (bytes : List ℕ) (m : Method) → (from_bytes bytes ≡ ok m) ↔ (bytes ≡ as_str m)
unfolding from_bytes method_of as_str bytes_eq
from_bytes-as_str bytes m = (forth bytes m, λ h. rw h (back m))
  where
    forth : (bytes : List ℕ) (m : Method) → from_bytes bytes ≡ ok m → bytes ≡ as_str m
    forth [] m h = ground arith
    forth (b ∷ l) m h =
        method_of_text b l m (else_ok (ltb (length (b ∷ l)) 3 || ltb 7 (length (b ∷ l))) h)

    back : (m : Method) → from_bytes (as_str m) ≡ ok m
    back get = refl
    back _ = refl
