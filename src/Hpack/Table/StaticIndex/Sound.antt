-- ===== src/Hpack/Table/StaticIndex/Sound.antt =====
-- The indices that `StaticTable::index` gives stand for what was looked up.
use mathlib.Core.Path.{subst}
use commonlibrary_rust_ylong.Common.{
  ℕ, ◌≤◌, ◌≡◌, refl, sym, ap, Option, none, some, inl, inr, List, [], ◌∷◌, Bool, true, false,
  Bool-cases, ◌&&◌, leb, if◌then◌else◌, arith,
}
use commonlibrary_rust_ylong.Common.Text.{codes, bytes_eq, bytes_eq_iff}
use commonlibrary_rust_ylong.Hpack.Table.Header.{
  Header, authority, method, path, scheme, status, other, TableIndex, header_at, name_at, header_eq,
  header_eq→eq,
}
use commonlibrary_rust_ylong.Hpack.Table.Static.{header_name, header}
use commonlibrary_rust_ylong.Hpack.Table.StaticIndex.{
  Arm, arms, value_matches, match_arms, index_headers, static_index,
}

abbrev entry : Header → List ℕ → Option (Header × List ℕ)
entry h v = some (h, v)

abbrev pub StaticNames : Header → List ℕ → Option TableIndex → Type 0
StaticNames h v none = Unit
StaticNames h v (some (header_at i)) = (i ≤ 61) × (header i ≡ entry h v)
StaticNames h v (some (name_at i)) = (i ≤ 61) × (header_name i ≡ some h)

-- One test of a text, with what each branch returns.
test_text :
    (h : Header) (v t : List ℕ) (x y : Option TableIndex)
    → StaticNames h t x
    → StaticNames h v y
    → StaticNames h v (if bytes_eq v t then x else y)
test_text h v t x y same rest = elim (Bool-cases (bytes_eq v t)) [
  | inl e ↦ rw (e, (bytes_eq_iff v t).0 e) same
  | inr ne ↦ rw ne rest
]

-- An arm is in order if the static table has at its index what the arm matches.
name_is : Option Header → List ℕ → Bool
name_is none key = false
name_is (some h) key = header_eq h (other key)

entry_is : Option (Header × List ℕ) → List ℕ → Option (List ℕ) → Bool
entry_is (some (h, v)) key (some w) = header_eq h (other key) && bytes_eq v w
entry_is _ key value = false

arm_in_order : Arm → Bool
unfolding name_is entry_is
arm_in_order a = elim a.result [
  | header_at i ↦ leb i 61 && entry_is (header i) a.key a.value
  | name_at i ↦ leb i 61 && name_is (header_name i) a.key
]

all_in_order : List Arm → Bool
unfolding arm_in_order
all_in_order [] = true
all_in_order (a ∷ l) = arm_in_order a && all_in_order l

arms_in_order : all_in_order arms ≡ true
unfolding all_in_order arms header header_name header_eq bytes_eq
arms_in_order = refl

name_sound : (o : Option Header) (key : List ℕ) → name_is o key ≡ true → o ≡ some (other key)
unfolding name_is
name_sound none key h = cc
name_sound (some k) key h = ap some (header_eq→eq k (other key) h)

entry_sound :
    (o : Option (Header × List ℕ)) (key : List ℕ) (w : Option (List ℕ)) (value : List ℕ)
    → entry_is o key w ≡ true
    → value_matches w value ≡ true
    → o ≡ entry (other key) value
unfolding entry_is value_matches
entry_sound (some (h, v)) key (some w) value e m =
    let name = header_eq→eq h (other key) (ground arith) in
    let kept = (bytes_eq_iff v w).0 (ground arith) in cc (name, kept, (bytes_eq_iff value w).0 m)
entry_sound none key w value e m = cc
entry_sound (some o) key none value e m = cc

arm_sound :
    (k : List ℕ) (w : Option (List ℕ)) (r : TableIndex) (value : List ℕ)
    → arm_in_order (record { key = k; value = w; result = r }) ≡ true
    → value_matches w value ≡ true
    → StaticNames (other k) value (some r)
unfolding arm_in_order
arm_sound k w (header_at i) value ok m =
    (ground arith, entry_sound (header i) k w value (ground arith) m)
arm_sound k w (name_at i) value ok m = (ground arith, name_sound (header_name i) k (ground arith))

match_arms-StaticNames :
    (l : List Arm) (key value : List ℕ)
    → all_in_order l ≡ true
    → StaticNames (other key) value (match_arms l key value)
unfolding match_arms all_in_order
match_arms-StaticNames [] key value ok = tt
match_arms-StaticNames (a ∷ l) key value ok =
    elim (Bool-cases (bytes_eq key a.key && value_matches a.value value)) [
      | inl hit ↦
          let name : key ≡ a.key = (bytes_eq_iff key a.key).0 (ground arith) in
          rw hit (
            subst (λ k. StaticNames (other k) value (some a.result)) (sym name)
              (arm_sound a.key a.value a.result value (ground arith) (ground arith)))
      | inr miss ↦ rw miss (match_arms-StaticNames l key value (ground arith))
    ]

-- Whatever `StaticTable::index` gives for a header and a value, the static table has at that index:
-- the header with the value for a header's index, and the header for a name's index.
pub static_index-StaticNames :
    (h : Header) (value : List ℕ) → StaticNames h value (static_index h value)
unfolding static_index header header_name
static_index-StaticNames authority value = (omega arith, refl)
static_index-StaticNames method value =
    test_text method value (codes "GET") _ _ (omega arith, refl)
      (test_text method value (codes "POST") _ _ (omega arith, refl) (omega arith, refl))
static_index-StaticNames path value =
    test_text path value (codes "/") _ _ (omega arith, refl)
      (test_text path value (codes "/index.html") _ _ (omega arith, refl) (omega arith, refl))
static_index-StaticNames scheme value =
    test_text scheme value (codes "http") _ _ (omega arith, refl)
      (test_text scheme value (codes "https") _ _ (omega arith, refl) (omega arith, refl))
static_index-StaticNames status value =
    test_text status value (codes "200") _ _ (omega arith, refl)
      (test_text status value (codes "204") _ _ (omega arith, refl)
        (test_text status value (codes "206") _ _ (omega arith, refl)
          (test_text status value (codes "304") _ _ (omega arith, refl)
            (test_text status value (codes "400") _ _ (omega arith, refl)
              (test_text status value (codes "404") _ _ (omega arith, refl)
                (test_text status value (codes "500") _ _ (omega arith, refl)
                  (omega arith, refl)))))))
static_index-StaticNames (other s) value =
    unfold index_headers in match_arms-StaticNames arms s value arms_in_order
