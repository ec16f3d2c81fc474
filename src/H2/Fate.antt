-- ===== src/H2/Fate.antt =====
-- How a call of the decoders ends, with the state that it leaves: shared by HPACK and the frames.
use commonlibrary_rust_ylong.Common.{◌≡◌, refl}
use commonlibrary_rust_ylong.H2.Error.{H2Error}

-- `panicked` is a panic of the code; `out_of_fuel` is no outcome of the program.
pub data Fate (A : Type 0) : Type 0 where
  returned : A → Fate A
  failed : H2Error → Fate A
  panicked : Fate A
  out_of_fuel : Fate A

abbrev pub continue : {S A B : Type 0} → Fate A × S → (A → S → Fate B × S) → Fate B × S
continue (returned a, s) f = f a s
continue (failed e, s) f = (failed e, s)
continue (panicked, s) f = (panicked, s)
continue (out_of_fuel, s) f = (out_of_fuel, s)

pub continue-cong :
    {S A B : Type 0} (m : Fate A × S) (f g : A → S → Fate B × S)
    → ((a : A) (s : S) → f a s ≡ g a s)
    → continue m f ≡ continue m g
continue-cong (returned a, s) f g h = h a s
continue-cong (failed e, s) f g h = refl
continue-cong (panicked, s) f g h = refl
continue-cong (out_of_fuel, s) f g h = refl

pub continue_assoc :
    {S A B C : Type 0} (m : Fate A × S) (f : A → S → Fate B × S) (g : B → S → Fate C × S)
    → continue (continue m f) g ≡ continue m (λ a s. continue (f a s) g)
continue_assoc (returned a, s) f g = refl
continue_assoc (failed e, s) f g = refl
continue_assoc (panicked, s) f g = refl
continue_assoc (out_of_fuel, s) f g = refl
